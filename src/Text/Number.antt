-- ===== src/Text/Number.antt =====
-- `strconv.Atoi`, as far as positive limits need it: the value of a text that spells a number that
-- is not negative. A value beyond the range of `int` makes `Atoi` fail; the callers refuse it by
-- their own upper bounds, so it is kept here.
use porcelain.Prelude.{
  ℕ, ◌≤◌, ◌<◌, Bool, true, ◌&&◌, [], ◌∷◌, Option, none, some, arith, eqb, leb, ltb, if◌then◌else◌,
}
use porcelain.Text.{Text}
use porcelain.Text.Decimal.{value}

unfoldable pub all_digits : Text → Bool
all_digits [] = true
all_digits (c ∷ s) = (leb b'0' c && leb c b'9') && all_digits s

unfoldable pub unsigned : Text → Option ℕ
unfolding all_digits
unsigned [] = none
unsigned (c ∷ s) = if all_digits (c ∷ s) then some (value 0 (c ∷ s)) else none

unfoldable pub atoi : Text → Option ℕ
unfolding unsigned
atoi [] = none
atoi (c ∷ s) = if eqb c b'+' then unsigned s else if eqb c b'-' then none else unsigned (c ∷ s)

-- A limit in a query: a number from 1 to `most`, else the default.
unfoldable pub query_limit : ℕ → ℕ → Text → ℕ
unfolding atoi
query_limit default most raw = elim (atoi raw) [
  | none ↦ default
  | some n ↦ if ltb 0 n && leb n most then n else default
]

-- The limit is positive and at most the bound, whatever the query says.
pub query_limit_bounds :
    (default most : ℕ) (raw : Text)
    → 0 < default
    → default ≤ most
    → (0 < query_limit default most raw) × (query_limit default most raw ≤ most)
unfolding query_limit
query_limit_bounds default most raw h k = ground arith
