-- ===== src/Server/Badges.antt =====
-- internal/server/router.go: status badges of the sidebar, and the monogram of the user menu.
pub mod Laws
use porcelain.Prelude.{
  ℕ, zero, suc, Bool, true, false, ◌||◌, ◌<◌, ◌≤◌, List, [], ◌∷◌, ◌++◌, Option, none, some,
  if◌then◌else◌, ltb, eqb, ◌≡◌, ◌≢◌, ◌↔◌, ◌⊎◌, inl, inr, refl, arith, length, take, Option-cases,
  Bool-cases,
}
use porcelain.Text.{Text, codes, ◌==◌, trim_space, index, to_upper}
use porcelain.Text.Affix.{eq_iff}
use porcelain.Registry.{Health, healthy, degraded, unavailable, unknown, Status, Registry, get}

-- The badges "ok", "dev" and "off", each with its style class.
pub data StatusBadge : Type 0 where
  ok_badge dev_badge off_badge : StatusBadge

unfoldable pub badge_for : Status → Option StatusBadge
badge_for st = elim st.health [
  | healthy ↦ some ok_badge
  | degraded ↦ some dev_badge
  | unavailable ↦ some off_badge
  | unknown ↦ none
]

-- `healthRank`, one higher: 0 stands for -1.
unfoldable pub health_rank : Health → ℕ
health_rank healthy = 1
health_rank degraded = 2
health_rank unavailable = 3
health_rank unknown = 0

-- The badge of a rank.
unfoldable pub rank_badge : ℕ → Option StatusBadge
rank_badge zero = none
rank_badge (suc zero) = some ok_badge
rank_badge (suc (suc zero)) = some dev_badge
rank_badge (suc (suc (suc n))) = if eqb n 0 then some off_badge else none

-- An entry of the sidebar: its identifier and its badge.
pub record ModuleNav : Type 0 where
  pub id : Text
  pub status_badge : Option StatusBadge

-- An entry with its children.
pub record NavGroup : Type 0 where
  pub head : ModuleNav
  pub children : List ModuleNav

module _ {M : Type 0} (status : M → Status) (registry : Registry M) where
  -- The rank of a child; one whose module is not registered counts as unknown.
  unfoldable pub rank_of : ModuleNav → ℕ
  unfolding health_rank
  rank_of ch = elim (get registry ch.id) [ none ↦ 0 | some m ↦ health_rank (status m).health ]

  -- The loop of `rolledUpBadge`, from the worst rank so far.
  unfoldable pub worst_rank : ℕ → List ModuleNav → ℕ
  unfolding rank_of
  worst_rank worst [] = worst
  worst_rank worst (ch ∷ children) =
      worst_rank (if ltb worst (rank_of ch) then rank_of ch else worst) children

  unfoldable pub rolled_up_badge : List ModuleNav → Option StatusBadge
  unfolding worst_rank rank_badge
  rolled_up_badge children = rank_badge (worst_rank 0 children)

  -- The badge of a registered module; an entry without one keeps its badge.
  unfoldable pub with_badge : ModuleNav → ModuleNav
  unfolding badge_for
  with_badge nav = elim (get registry nav.id) [
    | none ↦ nav
    | some m ↦ record nav { status_badge = badge_for (status m) }
  ]

  unfoldable pub with_badges : List ModuleNav → List ModuleNav
  unfolding with_badge
  with_badges [] = []
  with_badges (nav ∷ navs) = with_badge nav ∷ with_badges navs

  -- The badge of an entry that has no module of its own: the worst of its children, if any.
  unfoldable pub roll_up : ModuleNav → List ModuleNav → ModuleNav
  unfolding rolled_up_badge
  roll_up nav [] = nav
  roll_up nav (ch ∷ children) = record nav { status_badge = rolled_up_badge (ch ∷ children) }

  -- The children first; then the entry's own badge, or else the worst of its children.
  unfoldable pub overlay : NavGroup → NavGroup
  unfolding with_badges roll_up badge_for
  overlay group =
      let children = with_badges group.children in
      record {
        head = elim (get registry group.head.id) [
          | some m ↦ record (group.head) { status_badge = badge_for (status m) }
          | none ↦ roll_up group.head children
        ];
        children = children;
      }

-- `sidebarModules` over the static entries of the sidebar.
unfoldable pub sidebar_modules :
    {M : Type 0} → (M → Status) → Option (Registry M) → List NavGroup → List NavGroup
unfolding overlay
sidebar_modules status none nav = nav
sidebar_modules status (some r) [] = []
sidebar_modules status (some r) (group ∷ nav) =
    overlay status r group ∷ sidebar_modules status (some r) nav

-- `strings.FieldsFunc` with the separators of `initialsFor`: the current field is in reverse order.
unfoldable pub is_separator : ℕ → Bool
is_separator c = eqb c 32 || eqb c b'.' || eqb c b'_' || eqb c b'-'

-- The first field that is in front, if there is one, before the rest.
abbrev pub flush : Text → List Text → List Text
flush [] parts = parts
flush (c ∷ s) parts = (c ∷ s) ∷ parts

-- The field that the text begins with, which may be empty, and the fields behind it.
unfoldable pub name_parts : Text → Text × List Text
unfolding is_separator
name_parts [] = ([], [])
name_parts (c ∷ s) =
    let (field, parts) = name_parts s in
    if is_separator c then ([], flush field parts) else (c ∷ field, parts)

unfoldable pub fields_of : Text → List Text
unfolding name_parts
fields_of s = let (field, parts) = name_parts s in flush field parts

abbrev pub last_or : Text → List Text → Text
last_or s [] = s
last_or s (t ∷ ts) = last_or t ts

-- The slice `[]rune(name)[:1]` of an empty name is within the bounds if the array behind it has room
-- for one more, which Go leaves to the implementation: `empty_slice` is the text that it gives, or
-- `none` for a panic.
module _ (empty_slice : Option Text) where
  -- `string([]rune(s)[:1])`.
  unfoldable pub first_rune : Text → Option Text
  first_rune [] = empty_slice
  first_rune (c ∷ s) = some (c ∷ [])

  -- The switch of `initialsFor`, over the part of the name before any "@".
  unfoldable pub monogram : Text → List Text → Option Text
  unfolding first_rune
  monogram name [] = elim (first_rune name) [ none ↦ none | some s ↦ some (to_upper s) ]
  monogram name (p ∷ []) = some (to_upper (take 2 p))
  monogram name (p ∷ q ∷ parts) = elim (first_rune p) [
    | none ↦ none
    | some s ↦ elim (first_rune (last_or q parts)) [
      | none ↦ none
      | some t ↦ some (to_upper (s ++ t))
    ]
  ]

  -- `initialsFor`; `none` is a panic.
  unfoldable pub initials_for : Text → Option Text
  unfolding monogram fields_of
  initials_for name =
      let trimmed = trim_space name in
      let short : Text = elim (index trimmed (codes "@")) [
        | none ↦ trimmed
        | some i ↦ take i trimmed
      ] in
      if trimmed == [] then some (codes "?") else monogram short (fields_of short)
