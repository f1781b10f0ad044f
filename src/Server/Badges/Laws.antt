-- ===== src/Server/Badges/Laws.antt =====
-- The worst of the children's badges, and the names for which there is no monogram.
use porcelain.Prelude.{
  Option, ℕ, zero, suc, true, false, ◌≤◌, List, [], ◌∷◌, none, some, if◌then◌else◌, ltb, eqb, ◌≡◌,
  ◌≢◌, ◌↔◌, ◌⊎◌, inl, inr, refl, arith, take, All, Option-cases, Bool-cases,
}
use porcelain.Text.{Text, codes, ◌==◌, trim_space, index, has_prefix}
use porcelain.Text.Affix.{eq_iff}
use porcelain.Registry.{Health, healthy, degraded, unavailable, unknown, Status, Registry, get}
use porcelain.Server.Badges.{
  ModuleNav, ok_badge, off_badge, health_rank, rank_badge, rank_of, worst_rank, rolled_up_badge,
  is_separator, flush, name_parts, fields_of, last_or, first_rune, monogram, initials_for,
}

health_rank_bound : (h : Health) → health_rank h ≤ 3
unfolding health_rank
health_rank_bound healthy = omega arith
health_rank_bound degraded = omega arith
health_rank_bound unavailable = omega arith
health_rank_bound unknown = omega arith

rank_badge_cases :
    (n : ℕ)
    → n ≤ 3
    → ((rank_badge n ≡ some off_badge) ↔ (¬ (n ≤ 2)))
      × (((rank_badge n ≡ some ok_badge) ⊎ (rank_badge n ≡ none)) ↔ (n ≤ 1))
      × ((rank_badge n ≡ none) ↔ (n ≤ 0))
unfolding rank_badge
rank_badge_cases zero h = (ground arith, ground arith, ground arith)
rank_badge_cases (suc zero) h = (ground arith, ground arith, ground arith)
rank_badge_cases (suc (suc zero)) h = (ground arith, ground arith, ground arith)
rank_badge_cases (suc (suc (suc n))) h = (ground arith, ground arith, ground arith)

module _ {M : Type 0} (status : M → Status) (registry : Registry M) where
  -- Every child's rank is at most `n`.
  abbrev pub AllAtMost : ℕ → List ModuleNav → Type 0
  AllAtMost n children = All (λ ch. rank_of status registry ch ≤ n) children

  worst_rank_le_iff :
      (n worst : ℕ) (children : List ModuleNav)
      → (worst_rank status registry worst children ≤ n) ↔ ((worst ≤ n) × AllAtMost n children)
  unfolding worst_rank
  worst_rank_le_iff n worst [] = (λ h. (h, tt), λ (h, _). h)
  worst_rank_le_iff n worst (ch ∷ children) =
      let rank = rank_of status registry ch in
      let ih = worst_rank_le_iff n (if ltb worst rank then rank else worst) children in
      (
        λ h. let (bound, rest) = ih.0 h in (ground arith, (ground arith, rest)),
        λ (h, both). ih.1 (let k = both.0 in ground arith, both.1),
      )

  rank_of_bound : (children : List ModuleNav) → AllAtMost 3 children
  unfolding rank_of
  rank_of_bound [] = tt
  rank_of_bound (ch ∷ children) = (
    elim (Option-cases (get registry ch.id)) [
      | inl e ↦ rw (rank_of, e) (omega arith)
      | inr (m, e) ↦ rw (rank_of, e) (health_rank_bound (status m).health)
    ],
    rank_of_bound children,
  )

  -- The badge of a group is the worst of its children's: "off" exactly if not all are degraded at
  -- most, "ok" or none exactly if all are well or unknown, none exactly if all are unknown.
  pub rolled_up_badge_iff :
      (children : List ModuleNav)
      → ((rolled_up_badge status registry children ≡ some off_badge) ↔ (¬ AllAtMost 2 children))
        × (((rolled_up_badge status registry children ≡ some ok_badge)
              ⊎ (rolled_up_badge status registry children ≡ none))
            ↔ AllAtMost 1 children)
        × ((rolled_up_badge status registry children ≡ none) ↔ AllAtMost 0 children)
  unfolding rolled_up_badge rank_badge
  rolled_up_badge_iff children =
      let below = (worst_rank_le_iff 3 0 children).1 (omega arith, rank_of_bound children) in
      let two = worst_rank_le_iff 2 0 children in
      let one = worst_rank_le_iff 1 0 children in
      let none_known = worst_rank_le_iff 0 0 children in
      let cases = rank_badge_cases (worst_rank status registry 0 children) below in
      let zero_small : 0 ≤ 2 = omega arith in
      (
        (
          λ e all. cases.0.0 e (two.1 (zero_small, all)),
          λ not_all. cases.0.1 (λ small. not_all (two.0 small).1),
        ),
        (λ e. (one.0 (cases.1.0 e)).1, λ all. cases.1.1 (one.1 (omega arith, all))),
        (λ e. (none_known.0 (cases.2.0 e)).1, λ all. cases.2.1 (none_known.1 (omega arith, all))),
      )

flush-All :
    (field : Text) (parts : List Text)
    → All (λ p. p ≢ []) parts
    → All (λ p. p ≢ []) (flush field parts)
flush-All [] parts h = h
flush-All (c ∷ s) parts h = (λ e. cc, h)

name_parts-All : (s : Text) → All (λ p. p ≢ []) (name_parts s).1
unfolding name_parts
name_parts-All [] = tt
name_parts-All (c ∷ s) =
    let ih = name_parts-All s in
    elim (Bool-cases (is_separator c)) [
      | inl e ↦ rw e (flush-All (name_parts s).0 (name_parts s).1 ih)
      | inr e ↦ rw e ih
    ]

last_or-All : (s : Text) (ts : List Text) → All (λ p. p ≢ []) (s ∷ ts) → last_or s ts ≢ []
last_or-All s [] (h, _) = h
last_or-All s (t ∷ ts) (_, h) = last_or-All t ts h

fields_of-All : (s : Text) → All (λ p. p ≢ []) (fields_of s)
unfolding fields_of
fields_of-All s = flush-All (name_parts s).0 (name_parts s).1 (name_parts-All s)

-- The part of a text before its first "@".
abbrev before_at : Text → Text
before_at t = elim (index t (codes "@")) [ none ↦ t | some i ↦ take i t ]

before_at-front : (c : ℕ) (s : Text) → eqb c b'@' ≡ false → (r : Text) × (before_at (c ∷ s) ≡ c ∷ r)
unfolding index has_prefix
before_at-front c s e = elim (Option-cases (index s (codes "@"))) [
  | inl f ↦ (s, ground arith)
  | inr (i, f) ↦ (take i s, ground arith)
]

before_at-nil : (c : ℕ) (s : Text) → eqb c b'@' ≡ true → before_at (c ∷ s) ≡ []
unfolding index has_prefix
before_at-nil c s e = ground arith

module _ (empty_slice : Option Text) where
  monogram_some :
      (name : Text) (parts : List Text)
      → name ≢ []
      → All (λ p. p ≢ []) parts
      → monogram empty_slice name parts ≢ none
  unfolding monogram first_rune
  monogram_some [] [] h k e = h refl
  monogram_some (c ∷ s) [] h k e = cc
  monogram_some name (p ∷ []) h k e = cc
  monogram_some name ([] ∷ q ∷ parts) h (p_some, rest) e = p_some refl
  monogram_some name ((c ∷ p) ∷ q ∷ parts) h (p_some, rest) e =
      let last_some = last_or-All q parts rest in ground (arith, e, last_some)

  monogram_empty : (monogram empty_slice [] [] ≡ none) ↔ (empty_slice ≡ none)
  unfolding monogram first_rune
  monogram_empty = elim (Option-cases empty_slice) [
    | inl e ↦ (λ _. e, λ _. rw e refl)
    | inr (x, e) ↦ (λ h. absurd (cc (rw e at h)), λ h. absurd (cc (e, h)))
  ]

  monogram_lem :
      (t : Text)
      → t ≢ []
      → (monogram empty_slice (before_at t) (fields_of (before_at t)) ≡ none)
        ↔ ((empty_slice ≡ none) × ((r : Text) × (t ≡ b'@' ∷ r)))
  unfolding fields_of name_parts
  monogram_lem [] h = absurd (h refl)
  monogram_lem (c ∷ s) h = elim (Bool-cases (eqb c b'@')) [
    | inl e ↦
        let same : c ≡ b'@' = ground arith in
        rw (before_at-nil c s e)
          ((λ stuck. (monogram_empty.0 stuck, (s, rw same refl))), λ (f, _). monogram_empty.1 f)
    | inr e ↦
        let (r, front) = before_at-front c s e in
        (
          λ stuck. absurd (
              monogram_some (before_at (c ∷ s)) (fields_of (before_at (c ∷ s))) (λ f. cc (front, f))
                (fields_of-All (before_at (c ∷ s))) stuck),
          λ (_, (r', same)). absurd (ground arith),
        )
  ]

  -- There is no monogram exactly if the slice of an empty name panics, and the name begins with "@"
  -- once it is trimmed.
  pub initials_for-eq-none_iff :
      (name : Text)
      → (initials_for empty_slice name ≡ none)
        ↔ ((empty_slice ≡ none) × ((r : Text) × (trim_space name ≡ b'@' ∷ r)))
  unfolding initials_for
  initials_for-eq-none_iff name = elim (Bool-cases (trim_space name == [])) [
    | inl e ↦
        let blank = (eq_iff (trim_space name) []).0 e in
        (λ f. absurd (cc (rw (initials_for, e) at f)), λ (_, (r, f)). absurd (cc (blank, f)))
    | inr e ↦
        let named : trim_space name ≢ [] = λ f. cc (e, (eq_iff (trim_space name) []).1 f) in
        let known = monogram_lem (trim_space name) named in
        (λ f. known.0 (rw (initials_for, e) at f), λ f. rw (initials_for, e) (known.1 f))
  ]
