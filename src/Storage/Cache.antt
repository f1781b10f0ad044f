-- ===== src/Storage/Cache.antt =====
-- internal/modules/storage: the data that the module shows while its source fails.
use porcelain.Prelude.{List, [], ◌∷◌, none, some, Result, ok, err, ◌≡◌, refl, ◌∙◌, ap, sym, subst}
use porcelain.Dbus.{Bus, Calls, BusError}
use porcelain.Storage.{
  StorageData, no_data, Backend, Module, new_module, Snapshot, cached_read, snapshot, read_backend,
}

module _ (sample : StorageData) (b : Backend) where
  -- Snapshots one after another, each on the bus as it is then: the module and the calls at the end.
  unfoldable pub snapshots : List Bus → Module → Calls → Module × Calls
  snapshots [] m calls = (m, calls)
  snapshots (bus ∷ buses) m calls =
      let seen = snapshot sample bus m calls in snapshots buses seen.after seen.calls

  -- What the source answers to the same reads, without the module.
  unfoldable pub answers : List Bus → Calls → List (Result BusError StorageData)
  answers [] calls = []
  answers (bus ∷ buses) calls =
      let (answer, after) = read_backend sample bus b calls in answer ∷ answers buses after

  -- The last answer that is not an error, or the data given.
  abbrev pub latest : StorageData → List (Result BusError StorageData) → StorageData
  latest old [] = old
  latest old (err _ ∷ rest) = latest old rest
  latest old (ok new ∷ rest) = latest new rest

  snapshot_lem :
      (m : Module) (calls : Calls) (bus : Bus)
      → m.backend ≡ some b
      → snapshot sample bus m calls ≡ cached_read m (read_backend sample bus b calls)
  unfolding snapshot
  snapshot_lem m calls bus h = simp (snapshot, h) refl

  -- The cache after some reads holds the last answer, and the source is still the same.
  abbrev HoldsLatest : List Bus → Module → Calls → Type 0
  HoldsLatest buses m calls =
      ((snapshots buses m calls).0.cached ≡ latest m.cached (answers buses calls))
      × ((snapshots buses m calls).0.backend ≡ some b)

  snapshots_lem :
      (buses : List Bus) (m : Module) (calls : Calls)
      → m.backend ≡ some b
      → HoldsLatest buses m calls
  unfolding snapshots answers cached_read
  snapshots_lem [] m calls h = (refl, h)
  snapshots_lem (bus ∷ buses) m calls h =
      subst (Follows m (read_backend sample bus b calls)) (sym (snapshot_lem m calls bus h))
        (go (snapshots_lem buses) (read_backend sample bus b calls))
    where
      -- What the rest of the reads makes of a first one, from its result.
      Follows : Module → Result BusError StorageData × Calls → Snapshot → Type 0
      Follows m' r seen =
          ((snapshots buses seen.after seen.calls).0.cached
            ≡ latest m'.cached (r.0 ∷ answers buses r.1))
          × ((snapshots buses seen.after seen.calls).0.backend ≡ some b)

      go :
          ((m' : Module) (after : Calls) → m'.backend ≡ some b → HoldsLatest buses m' after)
          → (r : Result BusError StorageData × Calls) → Follows m r (cached_read m r)
      go ih (err e, after) = ih (record m { last = some e }) after h
      go ih (ok new, after) = ih (record m { cached = new; last = none }) after h

  -- After any sequence of reads that succeed or fail, a read that fails shows the data of the last
  -- read that succeeded, and empty tables if none did.
  pub snapshot_shows_latest :
      (buses : List Bus) (bus : Bus) (calls after : Calls) (m : Module) (e : BusError)
      → snapshots buses (new_module (some b)) calls ≡ (m, after)
      → (snapshot sample bus m after).failure ≡ some e
      → (snapshot sample bus m after).data_shown ≡ latest no_data (answers buses calls)
  unfolding snapshot cached_read new_module
  snapshot_shows_latest buses bus calls after m e ran failed =
      let (cached, source) = snapshots_lem buses (new_module (some b)) calls refl in
      let known : m.backend ≡ some b = ap (λ r. r.0.backend) (sym ran) ∙ source in
      go known (read_backend sample bus b after) refl (ap (λ r. r.0.cached) (sym ran) ∙ cached)
    where
      go :
          m.backend ≡ some b
          → (r : Result BusError StorageData × Calls) → read_backend sample bus b after ≡ r
          → m.cached ≡ latest no_data (answers buses calls)
          → (snapshot sample bus m after).data_shown ≡ latest no_data (answers buses calls)
      go known (err _, _) q cached = rw (snapshot, known, q) cached
      go known (ok _, _) q cached = absurd (cc (rw (snapshot, known, q) at failed))
