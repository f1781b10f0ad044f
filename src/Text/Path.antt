-- ===== src/Text/Path.antt =====
-- `path.Clean` of Go's library. The parts of a path that are kept so far are a stack, the last part on
-- top.
pub mod Laws
use porcelain.Prelude.{ℕ, Bool, true, false, ◌||◌, List, [], ◌∷◌, ◌++◌, if◌then◌else◌, eqb, is_nil}
use porcelain.Text.{Text, ◌==◌, split}

abbrev pub dot_dot : Text
dot_dot = b'.' ∷ b'.' ∷ []

-- A part `..` takes the part before it away. Where there is none, it is dropped at the root, and kept
-- in front of a relative path.
unfoldable pub pop : Bool → List Text → List Text
unfolding ◌==◌
pop rooted [] = if rooted then [] else dot_dot ∷ []
pop rooted (top ∷ rest) = if top == dot_dot then dot_dot ∷ top ∷ rest else rest

unfoldable pub push_part : Bool → List Text → Text → List Text
unfolding pop
push_part rooted stack part =
    if is_nil part || part == b'.' ∷ []
    then stack
    else if part == dot_dot
    then pop rooted stack
    else part ∷ stack

unfoldable pub push_parts : Bool → List Text → List Text → List Text
unfolding push_part
push_parts rooted [] stack = stack
push_parts rooted (part ∷ parts) stack = push_parts rooted parts (push_part rooted stack part)

-- The parts of a stack with slashes between them, the top last.
unfoldable pub join_stack : List Text → Text
join_stack [] = []
join_stack (part ∷ []) = part
join_stack (part ∷ next ∷ rest) = join_stack (next ∷ rest) ++ b'/' ∷ part

unfoldable pub is_rooted : Text → Bool
is_rooted [] = false
is_rooted (c ∷ s) = eqb c b'/'

-- The text of the parts behind the root, or of a relative path, which is `.` if there are none.
unfoldable pub finish : Bool → Text → Text
finish true body = b'/' ∷ body
finish false [] = b'.' ∷ []
finish false (c ∷ body) = c ∷ body

unfoldable pub clean : Text → Text
unfolding push_parts join_stack is_rooted split finish
clean s = finish (is_rooted s) (join_stack (push_parts (is_rooted s) (split s b'/') []))
