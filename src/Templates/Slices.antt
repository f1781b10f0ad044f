-- ===== src/Templates/Slices.antt =====
-- internal/templates/funcs.go: where the template function `slice` panics.
use porcelain.Prelude.{ℕ, ℤ, pos, negsuc, none, ◌≡◌, ◌↔◌, refl, arith}
use porcelain.Text.{Text}
use porcelain.Templates.{go_slice, slice}

-- The bounds of a slice are brought into range, so that it never panics, but for one case: an end
-- that is negative.
pub slice-eq-none_iff :
    (s : Text) (start end : ℤ) → (slice s start end ≡ none) ↔ ((n : ℕ) × (end ≡ negsuc n))
unfolding slice go_slice
slice-eq-none_iff s (pos a) (pos b) = ((λ e. absurd (ground (arith, e))), λ (_, e). absurd (cc e))
slice-eq-none_iff s (pos a) (negsuc b) = ((λ _. (b, refl)), λ _. ground arith)
slice-eq-none_iff s (negsuc a) (pos b) =
    ((λ e. absurd (ground (arith, e))), λ (_, e). absurd (cc e))
slice-eq-none_iff s (negsuc a) (negsuc b) = ((λ _. (b, refl)), λ _. ground arith)
