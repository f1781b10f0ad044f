-- ===== src/Registry.antt =====
-- internal/modules/module.go: health values, the registry of modules, and its order.
-- The Go map is an association list with the newest entry first; the mutex guards single calls
-- and is left out.
pub mod Laws
pub mod Order
mod Tests
use porcelain.Prelude.{
  ℕ, String, Bool, true, false, List, [], ◌∷◌, ◌++◌, Option, none, some, if◌then◌else◌,
}
use porcelain.Text.{Text, ◌==◌}
use porcelain.Text.Sort.{sort_texts}

-- The strings "ok", "degraded" and "unavailable"; `unknown` stands for any other.
pub data Health : Type 0 where
  healthy degraded unavailable unknown : Health

pub record Status : Type 0 where
  pub health : Health
  pub detail : Text

-- `M` is the type of modules, `id` the method `ID`.
pub record Registry (M : Type 0) : Type 0 where
  pub modules : List (Text × M)
  pub order : List Text

module _ {M : Type 0} where
  unfoldable pub lookup : Text → List (Text × M) → Option M
  lookup k [] = none
  lookup k ((j, m) ∷ rest) = if j == k then some m else lookup k rest

  abbrev pub new_registry : Registry M
  new_registry = record { modules = []; order = [] }

  unfoldable pub get : Registry M → Text → Option M
  unfolding lookup
  get r k = lookup k r.modules

  -- The loop of `All`; `none` is the nil interface that a missing entry would give.
  unfoldable pub collect : List Text → List (Text × M) → List (Option M)
  collect [] entries = []
  collect (k ∷ ids) entries = lookup k entries ∷ collect ids entries

  unfoldable pub all_modules : Registry M → List (Option M)
  unfolding collect
  all_modules r = collect r.order r.modules

  unfoldable pub sorted_ids : Registry M → List Text
  unfolding sort_texts
  sorted_ids r = sort_texts r.order

  -- The registry after the module under an identifier has changed its own state. In Go the
  -- registry holds a pointer to it.
  unfoldable pub replace : Text → M → List (Text × M) → List (Text × M)
  replace k m [] = []
  replace k m ((j, x) ∷ rest) = if j == k then (j, m) ∷ rest else (j, x) ∷ replace k m rest

  unfoldable pub put : Text → M → Registry M → Registry M
  unfolding replace
  put k m r = record r { modules = replace k m r.modules }

module _ {M : Type 0} (id : M → Text) where
  unfoldable pub register : M → Registry M → Registry M
  register m r = elim (lookup (id m) r.modules) [
    | some _ ↦ r
    | none ↦ record { modules = (id m, m) ∷ r.modules; order = r.order ++ id m ∷ [] }
  ]

module _ {M : Type 0} {E : Type 0} (close : M → Option E) where
  -- The first error of the modules closed so far, and that of the next one.
  abbrev pub first_error : Option E → Option E → Option E
  first_error none next = next
  first_error (some e) next = some e

  -- The error of closing an entry; closing a nil interface would panic, and is counted as none.
  abbrev pub close_entry : Option M → Option E
  close_entry none = none
  close_entry (some m) = close m

  -- The loop of `Close`; every module is closed, whatever the errors.
  unfoldable pub close_all : List (Option M) → Option E → Option E
  close_all [] first = first
  close_all (m ∷ ms) first = close_all ms (first_error first (close_entry m))
