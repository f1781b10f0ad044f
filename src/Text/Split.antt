-- ===== src/Text/Split.antt =====
-- Laws of splitting and joining.
use porcelain.Prelude.{
  ℕ, ◌≡◌, ◌≢◌, refl, List, [], ◌∷◌, ◌++◌, arith, eqb, Bool-cases, inl, inr, All,
}
use porcelain.Text.{Text, extend, split, join}

-- The text does not hold the character.
abbrev pub Lacks : ℕ → Text → Type 0
Lacks b = All (λ c. c ≢ b)

extend-Lacks :
    (b c : ℕ) (parts : List Text) → c ≢ b → All (Lacks b) parts → All (Lacks b) (extend c parts)
unfolding extend
extend-Lacks b c [] h k = ((h, tt), tt)
extend-Lacks b c (p ∷ parts) h (k, ks) = ((h, k), ks)

-- No part of a split holds the separator.
pub split-Lacks : (s : Text) (sep : ℕ) → All (Lacks sep) (split s sep)
unfolding split
split-Lacks [] sep = (tt, tt)
split-Lacks (c ∷ s) sep = elim (Bool-cases (eqb c sep)) [
  | inl e ↦ rw e (tt, split-Lacks s sep)
  | inr e ↦ rw e (extend-Lacks sep c (split s sep) (ground arith) (split-Lacks s sep))
]

join-extend :
    (c : ℕ) (parts : List Text) (sep : Text) → join (extend c parts) sep ≡ c ∷ join parts sep
unfolding join extend
join-extend c [] sep = refl
join-extend c (p ∷ []) sep = refl
join-extend c (p ∷ q ∷ ps) sep = refl

extend-ne-nil : (c : ℕ) (parts : List Text) → extend c parts ≢ []
unfolding extend
extend-ne-nil c [] = cc
extend-ne-nil c (p ∷ ps) = cc

pub split-ne-nil : (s : Text) (sep : ℕ) → split s sep ≢ []
unfolding split
split-ne-nil [] sep = cc
split-ne-nil (c ∷ s) sep = ground (arith, extend-ne-nil c (split s sep))

join-nil_cons :
    (parts : List Text) (sep : Text) → parts ≢ [] → join ([] ∷ parts) sep ≡ sep ++ join parts sep
unfolding join
join-nil_cons [] sep h = absurd (h refl)
join-nil_cons (p ∷ ps) sep h = refl

-- Joining the parts of a split gives the text back.
pub join-split : (s : Text) (sep : ℕ) → join (split s sep) (sep ∷ []) ≡ s
unfolding split
join-split [] sep = unfold join in refl
join-split (c ∷ s) sep = elim (Bool-cases (eqb c sep)) [
  | inl e ↦ rw e (
      ground (arith, join-nil_cons (split s sep) (sep ∷ []) (split-ne-nil s sep), join-split s sep))
  | inr e ↦ rw e (ground (arith, join-extend c (split s sep) (sep ∷ []), join-split s sep))
]
