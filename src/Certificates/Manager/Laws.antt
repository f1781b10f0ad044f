-- ===== src/Certificates/Manager/Laws.antt =====
-- internal/certmanager/lifecycle.go: the server never loses its certificate.
use porcelain.Prelude.{ℕ, List, [], ◌∷◌, some, Result, ok, err, ◌≡◌, refl, Result-cases, inl, inr}
use porcelain.Text.{Text}
use porcelain.Certificates.{CertificateRequest, CertificateStore}
use porcelain.Certificates.Manager.{
  issue_failed, TlsManager, bootstrap_request, reload, load_or_bootstrap, tick, tick_all,
}

module _ (s : CertificateStore) where
  open s use {State, Cert, Error, get_certificate, issue, renew}

  -- The operations of a store return from every state of a kind, and stay in it.
  pub record Returns (P : State → Type 0) : Type 0 where
    pub issue_returns :
        (now : ℕ) (req : CertificateRequest) (st : State)
        → P st
        → (r : Result Error Cert) × (st' : State) × (issue now req st ≡ some (r, st')) × P st'
    pub renew_returns :
        (now : ℕ) (name : Text) (st : State)
        → P st
        → (r : Result Error (Unit {0})) × (st' : State) × (renew now name st ≡ some (r, st'))
          × P st'

  -- A manager that has a certificate, on a store of a kind.
  abbrev pub IsServing : (State → Type 0) → TlsManager s → Type 0
  IsServing P m = ((cert : Cert) × (m.cert ≡ some cert)) × P m.store

  module _ (P : State → Type 0) (returns : Returns P) where
    reload-IsServing : (m : TlsManager s) → IsServing P m → IsServing P (reload s m).1
    unfolding reload
    reload-IsServing m (has, p) = elim (Result-cases (get_certificate m.store m.cert_name)) [
      | inl (_, failed) ↦ rw (reload, failed) (has, p)
      | inr (cert, found) ↦ rw (reload, found) ((cert, refl), p)
    ]

    load_or_bootstrap-IsServing :
        (now : ℕ) (m : TlsManager s)
        → IsServing P m
        → (r : Result _ (Unit {0})) × (m' : TlsManager s) × (load_or_bootstrap s now m
            ≡ some (r, m'))
          × IsServing P m'
    unfolding load_or_bootstrap
    load_or_bootstrap-IsServing now m (has, p) =
        elim (Result-cases (get_certificate m.store m.cert_name)) [
          | inr (cert, found) ↦ (
            ok tt,
            record m { cert = some cert },
            rw (load_or_bootstrap, found) refl,
            ((cert, refl), p),
          )
          | inl (_, failed) ↦
              bootstraps failed
                (returns.issue_returns now (bootstrap_request s m.cert_name) m.store p)
        ]
      where
        bootstraps :
            {e : Error}
            → get_certificate m.store m.cert_name ≡ err e
            → (r : Result Error Cert) × (st : State) × (issue now
                  (bootstrap_request s m.cert_name)
                  m.store
                ≡ some (r, st))
              × P st
            → (r : Result _ (Unit {0})) × (m' : TlsManager s) × (load_or_bootstrap s now m
                ≡ some (r, m'))
              × IsServing P m'
        bootstraps failed (err e, st, issued, q) = (
          err (issue_failed e),
          record m { store = st },
          rw (load_or_bootstrap, failed, issued) refl,
          (has, q),
        )
        bootstraps failed (ok _, st, issued, q) =
            let m' = record m { store = st } in
            (
              (reload s m').0,
              (reload s m').1,
              rw (load_or_bootstrap, failed, issued) refl,
              reload-IsServing m' (has, q),
            )

    tick-IsServing :
        (now : ℕ) (m : TlsManager s)
        → IsServing P m
        → (m' : TlsManager s) × (tick s now m ≡ some m') × IsServing P m'
    unfolding tick
    tick-IsServing now m (has, p) = ticks (returns.renew_returns now m.cert_name m.store p)
      where
        ticks :
            (r : Result Error (Unit {0})) × (st : State) × (renew now m.cert_name m.store
                ≡ some (r, st))
              × P st
            → (m' : TlsManager s) × (tick s now m ≡ some m') × IsServing P m'
        ticks (err _, st, renewed, q) = (record m { store = st }, rw (tick, renewed) refl, (has, q))
        ticks (ok _, st, renewed, q) =
            let (r, m', loaded, serving) =
              load_or_bootstrap-IsServing now (record m { store = st }) (has, q) in
            (m', rw (tick, renewed, loaded) refl, serving)

    pub tick_all-IsServing :
        (moments : List ℕ) (m : TlsManager s)
        → IsServing P m
        → (m' : TlsManager s) × (tick_all s moments m ≡ some m') × IsServing P m'
    unfolding tick_all
    tick_all-IsServing [] m h = (m, refl, h)
    tick_all-IsServing (now ∷ moments) m h =
        let (m', ticked, h') = tick-IsServing now m h in
        let (last, rest, end) = tick_all-IsServing moments m' h' in
        (last, rw (tick_all, ticked, rest) refl, end)
