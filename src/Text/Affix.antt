-- ===== src/Text/Affix.antt =====
-- Laws of equality and of prefixes.
use porcelain.Prelude.{◌≡◌, refl, true, false, [], ◌∷◌, ◌++◌, arith, ◌↔◌, eqb_refl, length, drop}
use porcelain.Text.{Text, ◌==◌, has_prefix, trim_prefix}

pub eq_sound : (s t : Text) → (s == t) ≡ true → s ≡ t
unfolding ◌==◌
eq_sound [] [] h = refl
eq_sound [] (b ∷ t) h = cc
eq_sound (a ∷ s) [] h = cc
eq_sound (a ∷ s) (b ∷ t) h = ground (arith, eq_sound s t)

pub eq_refl : (s : Text) → (s == s) ≡ true
unfolding ◌==◌
eq_refl [] = refl
eq_refl (a ∷ s) = rw (eqb_refl a) (eq_refl s)

-- The test of two texts decides their equality.
pub eq_iff : (s t : Text) → ((s == t) ≡ true) ↔ (s ≡ t)
eq_iff s t = (eq_sound s t, λ e. rw e (eq_refl t))

pub has_prefix_sound : (s p : Text) → has_prefix s p ≡ true → (r : Text) × (s ≡ p ++ r)
unfolding has_prefix
has_prefix_sound s [] h = (s, refl)
has_prefix_sound [] (d ∷ p) h = cc
has_prefix_sound (c ∷ s) (d ∷ p) h =
    let (r, e) = has_prefix_sound s p (ground arith) in (r, ground (arith, e))

pub has_prefix-append : (p r : Text) → has_prefix (p ++ r) p ≡ true
unfolding has_prefix
has_prefix-append [] r = refl
has_prefix-append (d ∷ p) r = rw (eqb_refl d) (has_prefix-append p r)

drop-length : (p r : Text) → drop (length p) (p ++ r) ≡ r
drop-length [] r = refl
drop-length (d ∷ p) r = drop-length p r

pub trim_prefix-append : (p r : Text) → trim_prefix (p ++ r) p ≡ r
unfolding trim_prefix
trim_prefix-append p r = rw (has_prefix-append p r) (drop-length p r)

pub trim_prefix_absent : (s p : Text) → has_prefix s p ≡ false → trim_prefix s p ≡ s
unfolding trim_prefix
trim_prefix_absent s p h = rw h
