-- ===== src/Text/Sort.antt =====
-- `sort.Strings`: texts in the order of their code points, which is the order of their UTF-8 bytes.
use porcelain.Prelude.{
  Bool, true, false, ◌||◌, ◌&&◌, List, [], ◌∷◌, if◌then◌else◌, eqb, ltb, ◌≡◌, inl, inr, refl, arith,
  All, Bool-cases, ◌∙◌,
}
use porcelain.Text.{Text, ◌==◌}
use porcelain.Text.Affix.{eq_iff}

unfoldable pub text_leb : Text → Text → Bool
text_leb [] t = true
text_leb (a ∷ s) [] = false
text_leb (a ∷ s) (b ∷ t) = ltb a b || (eqb a b && text_leb s t)

unfoldable pub insert : Text → List Text → List Text
unfolding text_leb
insert s [] = s ∷ []
insert s (t ∷ ts) = let rest = insert s ts in if text_leb s t then s ∷ t ∷ ts else t ∷ rest

unfoldable pub sort_texts : List Text → List Text
unfolding insert
sort_texts [] = []
sort_texts (s ∷ ss) = insert s (sort_texts ss)

-- Whether a text is in a list.
unfoldable pub listed : Text → List Text → Bool
listed k [] = false
listed k (s ∷ ss) = s == k || listed k ss

-- Each text is at most every later one.
abbrev pub IsSorted : List Text → Type 0
IsSorted [] = Unit {0}
IsSorted (s ∷ ss) = All (λ t. text_leb s t ≡ true) ss × IsSorted ss

text_leb_total : (s t : Text) → text_leb s t ≡ false → text_leb t s ≡ true
unfolding text_leb
text_leb_total [] t h = cc
text_leb_total (a ∷ s) [] h = refl
text_leb_total (a ∷ s) (b ∷ t) h = let ih = text_leb_total s t in ground (arith, ih)

text_leb_trans : (s t u : Text) → text_leb s t ≡ true → text_leb t u ≡ true → text_leb s u ≡ true
unfolding text_leb
text_leb_trans [] t u h k = refl
text_leb_trans (a ∷ s) [] u h k = cc
text_leb_trans (a ∷ s) (b ∷ t) [] h k = cc
text_leb_trans (a ∷ s) (b ∷ t) (c ∷ u) h k = let ih = text_leb_trans s t u in ground (arith, ih)

All-leb_trans :
    (s t : Text) (ts : List Text)
    → text_leb s t ≡ true
    → All (λ u. text_leb t u ≡ true) ts
    → All (λ u. text_leb s u ≡ true) ts
All-leb_trans s t [] h k = tt
All-leb_trans s t (u ∷ ts) h (p, k) = (text_leb_trans s t u h p, All-leb_trans s t ts h k)

All-insert :
    (r s : Text) (ts : List Text)
    → text_leb r s ≡ true
    → All (λ u. text_leb r u ≡ true) ts
    → All (λ u. text_leb r u ≡ true) (insert s ts)
unfolding insert
All-insert r s [] h k = (h, tt)
All-insert r s (t ∷ ts) h (p, k) = elim (Bool-cases (text_leb s t)) [
  | inl e ↦ rw e (h, (p, k))
  | inr e ↦ rw e (p, All-insert r s ts h k)
]

insert-IsSorted : (s : Text) (ts : List Text) → IsSorted ts → IsSorted (insert s ts)
unfolding insert
insert-IsSorted s [] h = (tt, tt)
insert-IsSorted s (t ∷ ts) (p, h) = elim (Bool-cases (text_leb s t)) [
  | inl e ↦ rw e ((e, All-leb_trans s t ts e p), (p, h))
  | inr e ↦ rw e (All-insert t s ts (text_leb_total s t e) p, insert-IsSorted s ts h)
]

pub sort_texts-IsSorted : (ss : List Text) → IsSorted (sort_texts ss)
unfolding sort_texts
sort_texts-IsSorted [] = tt
sort_texts-IsSorted (s ∷ ss) = insert-IsSorted s (sort_texts ss) (sort_texts-IsSorted ss)

listed-insert : (k s : Text) (ts : List Text) → listed k (insert s ts) ≡ (s == k || listed k ts)
unfolding insert listed
listed-insert k s [] = refl
listed-insert k s (t ∷ ts) = let ih = listed-insert k s ts in ground (arith, ih)

pub listed-sort_texts : (k : Text) (ss : List Text) → listed k (sort_texts ss) ≡ listed k ss
unfolding sort_texts listed
listed-sort_texts k [] = refl
listed-sort_texts k (s ∷ ss) =
    let ih = listed-sort_texts k ss in let step = listed-insert k s (sort_texts ss) in cc

-- No text is twice in a list.
abbrev pub IsDistinct : List Text → Type 0
IsDistinct [] = Unit {0}
IsDistinct (s ∷ ss) = (listed s ss ≡ false) × IsDistinct ss

insert-IsDistinct :
    (s : Text) (ts : List Text) → listed s ts ≡ false → IsDistinct ts → IsDistinct (insert s ts)
unfolding insert listed
insert-IsDistinct s [] h k = (refl, tt)
insert-IsDistinct s (t ∷ ts) h (new, k) = elim (Bool-cases (text_leb s t)) [
  | inl e ↦ rw e (h, (new, k))
  | inr e ↦
      let fresh : listed t (insert s ts) ≡ false =
        ground (arith, h, new, listed-insert t s ts, eq_iff s t, eq_iff t s) in
      rw e (fresh, insert-IsDistinct s ts (ground (arith, h)) k)
]

pub sort_texts-IsDistinct : (ss : List Text) → IsDistinct ss → IsDistinct (sort_texts ss)
unfolding sort_texts
sort_texts-IsDistinct [] h = tt
sort_texts-IsDistinct (s ∷ ss) (new, h) =
    insert-IsDistinct s (sort_texts ss) (listed-sort_texts s ss ∙ new) (sort_texts-IsDistinct ss h)
