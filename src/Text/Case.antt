-- ===== src/Text/Case.antt =====
-- Laws of case mapping.
use porcelain.Prelude.{ℕ, ◌≡◌, refl, [], ◌∷◌, arith}
use porcelain.Text.{Text, lower, to_lower}

lower_idem : (c : ℕ) → lower (lower c) ≡ lower c
unfolding lower
lower_idem c = ground arith

pub to_lower_idem : (s : Text) → to_lower (to_lower s) ≡ to_lower s
unfolding to_lower
to_lower_idem [] = refl
to_lower_idem (c ∷ s) = cc (lower_idem c, to_lower_idem s)
