-- ===== src/Host.antt =====
-- The host as the program sees it: commands that it runs (os/exec), and the clock. Neither is code
-- of the program, so both are parameters: the answers may depend on all commands run so far.
use porcelain.Prelude.{ℕ, Bool, List, ◌∷◌, Option, none}
use porcelain.Text.{Text}

pub record Command : Type 0 where
  pub program : Text
  pub args : List Text
  pub input : Option Text

-- What `CombinedOutput` and `Output` return: the text, and the error's message if there is one.
-- A command that is stopped by its time limit is one that failed.
pub record Outcome : Type 0 where
  pub output : Text
  pub failure : Option Text

-- The commands run so far, the latest first.
abbrev pub World : Type 0
World = List Command

pub record Host : Type 0 where
  pub run : World → Command → Outcome
  pub now : World → ℕ

-- A command with no standard input.
abbrev pub command : Text → List Text → Command
command program args = record { program = program; args = args; input = none }

unfoldable pub exec : Host → World → Command → Outcome × World
exec host w c = (host.run w c, c ∷ w)

-- Floating-point numbers and their text forms, as far as the program uses them.
pub record Floats : Type 1 where
  pub Float : Type 0
  pub zero_float : Float
  pub is_positive : Float → Bool
  pub at_least : Float → Float → Bool
  pub parse_float : Text → Option Float
  -- `fmt.Sprintf` with `%.2f` and with `%.0f`.
  pub fixed_two : Float → Text
  pub fixed_zero : Float → Text
