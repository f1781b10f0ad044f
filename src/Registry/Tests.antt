-- ===== src/Registry/Tests.antt =====
-- Runs of the registry, and its theorems at concrete registrations.
use porcelain.Prelude.{ℕ, List, [], ◌∷◌, some, ◌≡◌, refl, map}
use porcelain.Text.{Text, codes, ◌==◌}
use porcelain.Registry.{new_registry, get, all_modules, register, collect, lookup}
use porcelain.Registry.Laws.{register_all, firsts, all_modules-register_all}

-- A module is its identifier and a number.
abbrev Toy : Type 0
Toy = Text × ℕ

abbrev toy_id : Toy → Text
toy_id t = t.0

abbrev toys : List Toy
toys = (codes "zfs", 1) ∷ (codes "podman", 2) ∷ (codes "zfs", 3) ∷ []

first_wins :
    (all_modules (register_all toy_id toys new_registry)
      ≡ some (codes "zfs", 1) ∷ some (codes "podman", 2) ∷ [])
    × (get (register_all toy_id toys new_registry) (codes "zfs") ≡ some (codes "zfs", 1))
unfolding all_modules collect lookup get register ◌==◌
first_wins = (refl, refl)

all_modules-register_all_example :
    all_modules (register_all toy_id toys new_registry) ≡ map some (firsts toy_id [] toys)
all_modules-register_all_example = all_modules-register_all toy_id toys
