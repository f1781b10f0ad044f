-- ===== src/Certificates/Filesystem/Laws.antt =====
-- internal/secrets/filesystem.go: a reload swaps the whole bundle or nothing.
use porcelain.Prelude.{
  List, [], ◌∷◌, none, some, ok, ◌≡◌, ◌⊎◌, inl, inr, refl, Result-cases, Option-cases, ok_inj, sym,
  subst, Bool-cases, is_nil,
}
use porcelain.Text.{Text, codes}
use porcelain.Text.Path.{clean}
use porcelain.Certificates.{Bytes, Crypto, with_leaf}
use porcelain.Certificates.Filesystem.{
  Moments, FilesystemStore, in_dir, load, read_named, reloaded, renew, new_store,
}

module _ (c : Crypto) where
  -- The store holds the pair and the trust roots that one reload read from its own directory, each at
  -- its moment of that reload.
  abbrev pub IsLoadedFrom : Moments → FilesystemStore c → Type 0
  IsLoadedFrom moments s =
      (cert : Bytes) × (key : Bytes) × (ca : Bytes) × (pair : c.Pair) × (pool : c.Pool)
      × (moments.at_certificate.read_file (in_dir c s (codes "server.crt")) ≡ ok cert)
      × (moments.at_key.read_file (in_dir c s (codes "server.key")) ≡ ok key)
      × (moments.at_ca.read_file (in_dir c s (codes "ca.crt")) ≡ ok ca)
      × (c.key_pair cert key ≡ ok pair)
      × (c.append_certs ca ≡ some pool)
      × (s.server ≡ some (with_leaf c pair))
      × (s.ca_pool ≡ some pool)
      × (s.leaf ≡ (with_leaf c pair).leaf)

  -- The renewals, each with the disk at its three moments.
  unfoldable pub renew_all : List Moments → FilesystemStore c → FilesystemStore c
  unfolding renew
  renew_all [] s = s
  renew_all (moments ∷ reloads) s = renew_all reloads (renew c moments s).1

  -- One of the reloads of a list is such a reload.
  abbrev pub SomeReload : (Moments → Type 0) → List Moments → Type 0
  SomeReload P [] = ⊥
  SomeReload P (moments ∷ reloads) = P moments ⊎ SomeReload P reloads

  reloaded-IsLoadedFrom :
      (moments : Moments) (s s' : FilesystemStore c)
      → reloaded c moments s ≡ ok s'
      → IsLoadedFrom moments s'
  unfolding reloaded read_named load
  reloaded-IsLoadedFrom moments s s' e =
      elim (Result-cases (moments.at_certificate.read_file (in_dir c s (codes "server.crt")))) [
        | inl (_, f) ↦ absurd (cc (rw (reloaded, read_named, f) at e))
        | inr (cert, h1) ↦
            elim (Result-cases (moments.at_key.read_file (in_dir c s (codes "server.key")))) [
              | inl (_, f) ↦ absurd (cc (rw (reloaded, read_named, h1, f) at e))
              | inr (key, h2) ↦
                  elim (Result-cases (moments.at_ca.read_file (in_dir c s (codes "ca.crt")))) [
                    | inl (_, f) ↦ absurd (cc (rw (reloaded, read_named, h1, h2, f) at e))
                    | inr (ca, h3) ↦ elim (Result-cases (c.key_pair cert key)) [
                      | inl (_, f) ↦
                          absurd (cc (rw (reloaded, read_named, h1, h2, h3, load, f) at e))
                      | inr (pair, h4) ↦ elim (Option-cases (c.append_certs ca)) [
                        | inl f ↦
                            absurd (cc (rw (reloaded, read_named, h1, h2, h3, load, h4, f) at e))
                        | inr (pool, h5) ↦
                            subst (IsLoadedFrom moments)
                              (ok_inj (rw (reloaded, read_named, h1, h2, h3, load, h4, h5) at e))
                              (cert, key, ca, pair, pool, h1, h2, h3, h4, h5, refl, refl, refl)
                      ]
                    ]
                  ]
            ]
      ]

  -- The reload that a store holds, after renewals, is the old one or one of the new ones.
  renew_all_keeps :
      (reloads : List Moments) (s : FilesystemStore c) (old : Moments)
      → IsLoadedFrom old s
      → SomeReload (λ moments. IsLoadedFrom moments (renew_all reloads s)) (old ∷ reloads)
  unfolding renew_all renew
  renew_all_keeps [] s old h = inl h
  renew_all_keeps (moments ∷ reloads) s old h = elim (Result-cases (reloaded c moments s)) [
    | inl (e, failed) ↦
        let same : renew_all (moments ∷ reloads) s ≡ renew_all reloads s =
          rw (renew, failed) refl in
        subst (λ x. SomeReload (λ d. IsLoadedFrom d x) (old ∷ moments ∷ reloads)) (sym same)
          (elim (renew_all_keeps reloads s old h) [
            | inl kept ↦ inl kept
            | inr later ↦ inr (inr later)
          ])
    | inr (s', swapped) ↦
        let same : renew_all (moments ∷ reloads) s ≡ renew_all reloads s' =
          rw (renew, swapped) refl in
        subst (λ x. SomeReload (λ d. IsLoadedFrom d x) (old ∷ moments ∷ reloads)) (sym same)
          (inr (renew_all_keeps reloads s' moments (reloaded-IsLoadedFrom moments s s' swapped)))
  ]

  -- After a store has started from a directory, and after any number of renewals, with a disk that
  -- may change before each single read, the store holds a certificate, a key that fits it and trust
  -- roots that were all read by one and the same start or renewal: one that fails in the middle
  -- changes nothing.
  pub renew_all-IsLoadedFrom :
      (first : Moments) (reloads : List Moments) (dir : Text) (s : FilesystemStore c)
      → new_store c first dir ≡ ok s
      → SomeReload (λ moments. IsLoadedFrom moments (renew_all reloads s)) (first ∷ reloads)
  unfolding new_store
  renew_all-IsLoadedFrom first reloads dir s e = elim (Bool-cases (is_nil dir)) [
    | inl empty ↦ absurd (cc (rw (new_store, empty) at e))
    | inr named ↦ renew_all_keeps reloads s first (
        reloaded-IsLoadedFrom first
          (record { dir = clean dir; server = none; ca_pool = none; leaf = none }) s
          (rw (new_store, named) at e))
  ]
