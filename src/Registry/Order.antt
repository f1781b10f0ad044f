-- ===== src/Registry/Order.antt =====
-- What `SortedIDs` of internal/modules/module.go lists.
use porcelain.Prelude.{
  ◌||◌, List, [], ◌∷◌, ◌++◌, ◌≡◌, refl, arith, is_found, inl, inr, Option-cases,
}
use porcelain.Text.{Text, ◌==◌}
use porcelain.Text.Sort.{listed, IsSorted, sort_texts-IsSorted, listed-sort_texts}
use porcelain.Registry.{Registry, lookup, new_registry, get, register, sorted_ids}
use porcelain.Registry.Laws.{register_all}

listed-append : (k j : Text) (ids : List Text) → listed k (ids ++ j ∷ []) ≡ (listed k ids || j == k)
unfolding listed
listed-append k j [] = ground arith
listed-append k j (i ∷ ids) = let ih = listed-append k j ids in ground (arith, ih)

module _ {M : Type 0} (id : M → Text) where
  -- The order holds just the identifiers of the registered modules.
  abbrev pub IsIndexed : Registry M → Type 0
  IsIndexed r = (k : Text) → listed k r.order ≡ is_found (lookup k r.modules)

  register-IsIndexed : (m : M) (r : Registry M) → IsIndexed r → IsIndexed (register id m r)
  unfolding register lookup
  register-IsIndexed m r h = elim (Option-cases (lookup (id m) r.modules)) [
    | inr (x, e) ↦ rw (register, e) h
    | inl e ↦
        rw (register, e)
          (λ k.
            let old = h k in let step = listed-append k (id m) r.order in ground (arith, old, step))
  ]

  register_all-IsIndexed :
      (ms : List M) (r : Registry M) → IsIndexed r → IsIndexed (register_all id ms r)
  register_all-IsIndexed [] r h = h
  register_all-IsIndexed (m ∷ ms) r h =
      register_all-IsIndexed ms (register id m r) (register-IsIndexed m r h)

  new_registry-IsIndexed : IsIndexed new_registry
  unfolding listed lookup
  new_registry-IsIndexed k = refl

  -- After any registrations the sorted identifiers are in order, and an identifier is among them
  -- exactly if a module is found under it.
  pub sorted_ids-register_all :
      (ms : List M) (k : Text)
      → IsSorted (sorted_ids (register_all id ms new_registry))
        × (listed k (sorted_ids (register_all id ms new_registry))
            ≡ is_found (get (register_all id ms new_registry) k))
  unfolding sorted_ids get
  sorted_ids-register_all ms k =
      let r = register_all id ms new_registry in
      (
        sort_texts-IsSorted r.order,
        cc (
          listed-sort_texts k r.order,
          register_all-IsIndexed ms new_registry new_registry-IsIndexed k,
        ),
      )
