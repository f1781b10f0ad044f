-- ===== src/Text/Trim.antt =====
-- Laws of trimming.
use porcelain.Prelude.{ℕ, ◌≡◌, refl, Bool, false, [], ◌∷◌, Bool-cases, inl, inr}
use porcelain.Text.{Text, is_space, trim_left, trim_end, trim_right, trim_func, trim_space}

module _ (p : ℕ → Bool) where
  -- The text is empty or begins with a character that is not trimmed.
  abbrev pub StartsClean : Text → Type 0
  StartsClean [] = Unit
  StartsClean (c ∷ s) = p c ≡ false

  trim_left-StartsClean : (s : Text) → StartsClean (trim_left p s)
  unfolding trim_left
  trim_left-StartsClean [] = tt
  trim_left-StartsClean (c ∷ s) = elim (Bool-cases (p c)) [
    | inl e ↦ rw e (trim_left-StartsClean s)
    | inr e ↦ rw e e
  ]

  trim_left_of_StartsClean : (s : Text) → StartsClean s → trim_left p s ≡ s
  unfolding trim_left
  trim_left_of_StartsClean [] h = refl
  trim_left_of_StartsClean (c ∷ s) h = rw h

  trim_end_idem :
      (c : ℕ) (s : Text) → trim_right p s ≡ s → trim_right p (trim_end p c s) ≡ trim_end p c s
  unfolding trim_end trim_right
  trim_end_idem c [] e = elim (Bool-cases (p c)) [ inl h ↦ rw h | inr h ↦ rw (h, h) ]
  trim_end_idem c (d ∷ s) e = rw e

  trim_right_idem : (s : Text) → trim_right p (trim_right p s) ≡ trim_right p s
  unfolding trim_right
  trim_right_idem [] = refl
  trim_right_idem (c ∷ s) = trim_end_idem c (trim_right p s) (trim_right_idem s)

  trim_right-StartsClean : (s : Text) → StartsClean s → StartsClean (trim_right p s)
  unfolding trim_right trim_end
  trim_right-StartsClean [] h = tt
  trim_right-StartsClean (c ∷ s) h = go (trim_right p s)
    where
      go : (t : Text) → StartsClean (trim_end p c t)
      go [] = rw h h
      go (d ∷ t) = h

  -- What is left after trimming has nothing more to trim.
  pub trim_func_idem : (s : Text) → trim_func p (trim_func p s) ≡ trim_func p s
  unfolding trim_func
  trim_func_idem s =
      rw (trim_left_of_StartsClean _ (trim_right-StartsClean _ (trim_left-StartsClean s)))
        (trim_right_idem (trim_left p s))

  pub trim_func-StartsClean : (s : Text) → StartsClean (trim_func p s)
  unfolding trim_func
  trim_func-StartsClean s = trim_right-StartsClean _ (trim_left-StartsClean s)

pub trim_space_idem : (s : Text) → trim_space (trim_space s) ≡ trim_space s
unfolding trim_space
trim_space_idem s = trim_func_idem is_space s
