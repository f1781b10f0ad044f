-- ===== src/Text/Path/Laws.antt =====
-- A cleaned path has `..` at its front or nowhere.
use porcelain.Prelude.{
  ℕ, Bool, true, false, ◌||◌, List, [], ◌∷◌, ◌++◌, is_nil, ◌≡◌, ◌≢◌, ◌⊎◌, inl, inr, refl, arith,
  All, All-append, Bool-cases, sym, Option, none, some, ◌∙◌, ap, some_inj,
}
use porcelain.Text.{Text, ◌==◌, split, extend, has_prefix}
use porcelain.Text.Affix.{eq_iff, eq_sound, has_prefix-append, has_prefix_sound}
use porcelain.Text.Split.{Lacks, split-Lacks, split-ne-nil}
use porcelain.Text.Path.{dot_dot, pop, push_part, push_parts, join_stack, is_rooted, finish, clean}

-- A part that is not `..` and holds no slash.
abbrev pub IsPlain : Text → Type 0
IsPlain part = (part ≢ dot_dot) × Lacks b'/' part

-- The part at the bottom of a stack.
abbrev bottom : List Text → Option Text
bottom [] = none
bottom (part ∷ []) = some part
bottom (part ∷ next ∷ rest) = bottom (next ∷ rest)

-- Every part is plain; or the path is relative, and the bottom is `..`.
abbrev IsGood : Bool → List Text → Type 0
IsGood rooted stack = All IsPlain stack ⊎ ((rooted ≡ false) × (bottom stack ≡ some dot_dot))

bottom_cons :
    (part : Text) (stack : List Text)
    → bottom stack ≡ some dot_dot
    → bottom (part ∷ stack) ≡ some dot_dot
bottom_cons part [] h = absurd (cc h)
bottom_cons part (next ∷ rest) h = h

-- What is below a top that is not `..`.
below-IsGood :
    (rooted : Bool) (top : Text) (rest : List Text)
    → top ≢ dot_dot
    → IsGood rooted (top ∷ rest)
    → IsGood rooted rest
below-IsGood rooted top rest differs (inl (_, h)) = inl h
below-IsGood rooted top [] differs (inr (_, b)) = absurd (differs (some_inj b))
below-IsGood rooted top (next ∷ rest) differs (inr (f, b)) = inr (f, b)

pop-IsGood :
    (rooted : Bool) (stack : List Text) → IsGood rooted stack → IsGood rooted (pop rooted stack)
unfolding pop
pop-IsGood true [] h = inl tt
pop-IsGood false [] h = inr (refl, refl)
pop-IsGood rooted (top ∷ rest) h = elim (Bool-cases (top == dot_dot)) [
  | inl e ↦
      rw e (elim h [ inl ((p, _), _) ↦ absurd (p (eq_sound top dot_dot e)) | inr low ↦ inr low ])
  | inr e ↦ rw e (below-IsGood rooted top rest (λ same. cc ((eq_iff top dot_dot).1 same, e)) h)
]

push_part-IsGood :
    (rooted : Bool) (stack : List Text) (part : Text)
    → Lacks b'/' part
    → IsGood rooted stack
    → IsGood rooted (push_part rooted stack part)
unfolding push_part
push_part-IsGood rooted stack part lacks h = elim (Bool-cases (is_nil part || part == b'.' ∷ [])) [
  | inl e ↦ rw e h
  | inr e ↦ elim (Bool-cases (part == dot_dot)) [
    | inl d ↦ rw (e, d) (pop-IsGood rooted stack h)
    | inr d ↦
        rw (e, d)
          (elim h [
            | inl hs ↦ inl (((λ same. cc ((eq_iff part dot_dot).1 same, d)), lacks), hs)
            | inr (f, b) ↦ inr (f, bottom_cons part stack b)
          ])
  ]
]

push_parts-IsGood :
    (rooted : Bool) (parts stack : List Text)
    → All (Lacks b'/') parts
    → IsGood rooted stack
    → IsGood rooted (push_parts rooted parts stack)
unfolding push_parts
push_parts-IsGood rooted [] stack lacks h = h
push_parts-IsGood rooted (part ∷ parts) stack (l, ls) h =
    push_parts-IsGood rooted parts (push_part rooted stack part) ls
      (push_part-IsGood rooted stack part l h)

-- With `..` at the bottom, the text begins with it.
join_stack-bottom :
    (stack : List Text) → bottom stack ≡ some dot_dot → has_prefix (join_stack stack) dot_dot ≡ true
unfolding join_stack has_prefix
join_stack-bottom [] h = cc
join_stack-bottom (part ∷ []) h = rw (some_inj h) refl
join_stack-bottom (part ∷ next ∷ rest) h =
    let (r, e) =
      has_prefix_sound (join_stack (next ∷ rest)) dot_dot (join_stack-bottom (next ∷ rest) h) in
    rw e (has_prefix-append dot_dot (r ++ b'/' ∷ part))

split_plain : (s : Text) → Lacks b'/' s → split s b'/' ≡ s ∷ []
unfolding split extend
split_plain [] h = refl
split_plain (c ∷ s) (d, h) = let ih = split_plain s h in ground (arith, ih)

extend-append :
    (c : ℕ) (parts rest : List Text)
    → parts ≢ []
    → extend c (parts ++ rest) ≡ extend c parts ++ rest
unfolding extend
extend-append c [] rest h = absurd (h refl)
extend-append c (p ∷ parts) rest h = refl

split-append : (s t : Text) → split (s ++ b'/' ∷ t) b'/' ≡ split s b'/' ++ split t b'/'
unfolding split extend
split-append [] t = refl
split-append (c ∷ s) t =
    let ih = split-append s t in
    ground (arith, ih, extend-append c (split s b'/') (split t b'/') (split-ne-nil s b'/'))

join_stack-split :
    (stack : List Text)
    → All IsPlain stack
    → All (λ part. part ≢ dot_dot) (split (join_stack stack) b'/')
unfolding join_stack split
join_stack-split [] h = ((λ e. cc e), tt)
join_stack-split (part ∷ []) ((p, lacks), _) = rw (split_plain part lacks) (p, tt)
join_stack-split (part ∷ next ∷ rest) ((p, lacks), h) =
    rw (split-append (join_stack (next ∷ rest)) part, split_plain part lacks)
      (All-append (λ q. q ≢ dot_dot) (split (join_stack (next ∷ rest)) b'/') (part ∷ [])
        (join_stack-split (next ∷ rest) h) (p, tt))

finish-split :
    (rooted : Bool) (body : Text)
    → All (λ part. part ≢ dot_dot) (split body b'/')
    → All (λ part. part ≢ dot_dot) (split (finish rooted body) b'/')
unfolding finish split extend
finish-split true body h = ((λ e. cc e), h)
finish-split false [] h = ((λ e. cc e), tt)
finish-split false (c ∷ body) h = h

finish-has_prefix :
    (body : Text) → has_prefix body dot_dot ≡ true → has_prefix (finish false body) dot_dot ≡ true
unfolding finish has_prefix
finish-has_prefix [] h = cc
finish-has_prefix (c ∷ body) h = h

-- A cleaned path that does not begin with `..` has no part `..`.
pub clean_lem :
    (s : Text)
    → has_prefix (clean s) dot_dot ≡ false
    → All (λ part. part ≢ dot_dot) (split (clean s) b'/')
unfolding clean
clean_lem s h =
    let stack = push_parts (is_rooted s) (split s b'/') [] in
    elim (push_parts-IsGood (is_rooted s) (split s b'/') [] (split-Lacks s b'/') (inl tt)) [
      | inl plain ↦ finish-split (is_rooted s) (join_stack stack) (join_stack-split stack plain)
      | inr (r, b) ↦
          let relative = ap (λ rooted. has_prefix (finish rooted (join_stack stack)) dot_dot) r in
          let dotted = finish-has_prefix (join_stack stack) (join_stack-bottom stack b) in
          absurd (cc (sym h ∙ relative ∙ dotted))
    ]
