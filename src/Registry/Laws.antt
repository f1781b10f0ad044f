-- ===== src/Registry/Laws.antt =====
-- The registry of internal/modules/module.go keeps the first module of each identifier, in order.
use porcelain.Prelude.{
  Bool, true, false, List, [], ◌∷◌, ◌++◌, none, some, if◌then◌else◌, ◌≡◌, ◌≢◌, refl, arith, All,
  Option-cases, inl, inr, map, ◌||◌, ◌∙◌, sym, All-append, append-nil, append_assoc,
}
use porcelain.Text.{Text, ◌==◌}
use porcelain.Text.Affix.{eq_iff, eq_refl}
use porcelain.Registry.{Registry, lookup, new_registry, get, collect, all_modules, register}

module _ {M : Type 0} where
  -- Every identifier of the order has an entry, and the order lists every entry.
  abbrev pub IsKnown : List (Text × M) → Text → Type 0
  IsKnown entries k = lookup k entries ≢ none

  lookup_cons_other :
      (k j : Text) (m : M) (entries : List (Text × M))
      → IsKnown entries k
      → lookup j entries ≡ none
      → lookup k ((j, m) ∷ entries) ≡ lookup k entries
  unfolding lookup
  lookup_cons_other k j m entries h fresh = ground (arith, eq_iff j k)

  collect_cons :
      (ids : List Text) (j : Text) (m : M) (entries : List (Text × M))
      → All (IsKnown entries) ids
      → lookup j entries ≡ none
      → collect ids ((j, m) ∷ entries) ≡ collect ids entries
  unfolding collect
  collect_cons [] j m entries h fresh = refl
  collect_cons (k ∷ ids) j m entries (h, hs) fresh =
      rw (lookup_cons_other k j m entries h fresh, collect_cons ids j m entries hs fresh)

  collect-append :
      (xs ys : List Text) (entries : List (Text × M))
      → collect (xs ++ ys) entries ≡ collect xs entries ++ collect ys entries
  unfolding collect
  collect-append [] ys entries = refl
  collect-append (x ∷ xs) ys entries = rw (collect-append xs ys entries)

  IsKnown-cons :
      (k j : Text) (m : M) (entries : List (Text × M))
      → IsKnown entries k
      → IsKnown ((j, m) ∷ entries) k
  unfolding lookup
  IsKnown-cons k j m entries h = ground (arith, eq_iff j k)

  All-IsKnown-cons :
      (ids : List Text) (j : Text) (m : M) (entries : List (Text × M))
      → All (IsKnown entries) ids
      → All (IsKnown ((j, m) ∷ entries)) ids
  All-IsKnown-cons [] j m entries h = tt
  All-IsKnown-cons (k ∷ ids) j m entries (h, hs) =
      (IsKnown-cons k j m entries h, All-IsKnown-cons ids j m entries hs)

  lookup_self :
      (k : Text) (m : M) (entries : List (Text × M)) → lookup k ((k, m) ∷ entries) ≡ some m
  unfolding lookup
  lookup_self k m entries = rw (eq_refl k)

  -- Every identifier of the order has a module.
  abbrev pub IsValid : Registry M → Type 0
  IsValid r = All (IsKnown r.modules) r.order

abbrev pub has : Text → List Text → Bool
has k [] = false
has k (j ∷ ids) = j == k || has k ids

abbrev pub keys : {M : Type 0} → List (Text × M) → List Text
keys [] = []
keys (e ∷ entries) = e.0 ∷ keys entries

has-keys-none :
    {M : Type 0} (k : Text) (entries : List (Text × M))
    → lookup k entries ≡ none
    → has k (keys entries) ≡ false
unfolding lookup
has-keys-none k [] h = refl
has-keys-none k ((j, m) ∷ entries) h = ground (arith, has-keys-none k entries)

has-keys-some :
    {M : Type 0} (k : Text) (entries : List (Text × M)) {x : M}
    → lookup k entries ≡ some x
    → has k (keys entries) ≡ true
unfolding lookup
has-keys-some k [] h = cc
has-keys-some k ((j, m) ∷ entries) {x} h = ground (arith, has-keys-some k entries {x = x})

module _ {M : Type 0} (id : M → Text) where
  register_known :
      (m x : M) (r : Registry M) → lookup (id m) r.modules ≡ some x → register id m r ≡ r
  unfolding register
  register_known m x r e = rw (e, register)

  -- The registry with one more module.
  abbrev extended : M → Registry M → Registry M
  extended m r = record { modules = (id m, m) ∷ r.modules; order = r.order ++ id m ∷ [] }

  register_fresh :
      (m : M) (r : Registry M) → lookup (id m) r.modules ≡ none → register id m r ≡ extended m r
  unfolding register
  register_fresh m r e = rw (e, register)

  extended-IsValid : (m : M) (r : Registry M) → IsValid r → IsValid (extended m r)
  extended-IsValid m r v =
      All-append _ r.order (id m ∷ []) (All-IsKnown-cons r.order (id m) m r.modules v)
        ((λ e. cc (lookup_self (id m) m r.modules)), tt)

  all_modules-extended :
      (m : M) (r : Registry M)
      → IsValid r
      → lookup (id m) r.modules ≡ none
      → all_modules (extended m r) ≡ all_modules r ++ some m ∷ []
  unfolding all_modules
  all_modules-extended m r v fresh =
      rw
        (
          collect-append r.order (id m ∷ []) ((id m, m) ∷ r.modules),
          collect_cons r.order (id m) m r.modules v fresh,
        )
        (unfold collect in rw (lookup_self (id m) m r.modules))

  abbrev pub register_all : List M → Registry M → Registry M
  register_all [] r = r
  register_all (m ∷ ms) r = register_all ms (register id m r)

  -- The modules whose identifier is not among those seen, each identifier once: the first.
  abbrev pub firsts : List Text → List M → List M
  firsts seen [] = []
  firsts seen (m ∷ ms) = if has (id m) seen then firsts seen ms else m ∷ firsts (id m ∷ seen) ms

  all_modules-register_all_from :
      (ms : List M) (r : Registry M)
      → IsValid r
      → all_modules (register_all ms r) ≡ all_modules r ++ map some (firsts (keys r.modules) ms)
  all_modules-register_all_from [] r v = sym (append-nil _)
  all_modules-register_all_from (m ∷ ms) r v = elim (Option-cases (lookup (id m) r.modules)) [
    | inl e ↦
        rw
          (
            register_fresh m r e,
            has-keys-none (id m) r.modules e,
            all_modules-register_all_from ms (extended m r) (extended-IsValid m r v),
            all_modules-extended m r v e,
          )
          (append_assoc (all_modules r) (some m ∷ []) _)
    | inr (x, e) ↦
        rw (register_known m x r e, has-keys-some (id m) r.modules e)
          (all_modules-register_all_from ms r v)
  ]

  -- After any registrations the registry lists, in the order of registration, the first module
  -- that was registered under each identifier.
  pub all_modules-register_all :
      (ms : List M) → all_modules (register_all ms new_registry) ≡ map some (firsts [] ms)
  all_modules-register_all ms =
      all_modules-register_all_from ms new_registry tt ∙ unfold all_modules collect in refl

  -- A registration changes the answer for its own identifier alone, and only if there was none.
  pub get-register :
      (m : M) (r : Registry M) (k : Text)
      → get (register id m r) k
        ≡ elim (get r k) [ some x ↦ some x | none ↦ if id m == k then some m else none ]
  unfolding get
  get-register m r k = elim (Option-cases (lookup (id m) r.modules)) [
    | inl e ↦ rw (register_fresh m r e) (unfold lookup in ground (arith, eq_iff (id m) k, e))
    | inr (x, e) ↦ rw (register_known m x r e) (ground (arith, eq_iff (id m) k, e))
  ]
