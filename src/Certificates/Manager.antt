-- ===== src/Certificates/Manager.antt =====
-- internal/certmanager/lifecycle.go: the certificate that the server presents, and its renewal.
-- The lock makes each access one step; a round of the renewal loop is one step as well, since
-- nothing else changes the manager. A step that panics is `none`.
pub mod Laws
use porcelain.Prelude.{ℕ, ◌*◌, String, Bool, List, [], ◌∷◌, Option, none, some, Result, ok, err}
use porcelain.Text.{Text, codes}
use porcelain.Certificates.{rsa, CertificateRequest, CertificateStore}

-- The errors of the manager; those of the store keep their text behind what the manager did.
pub data ManagerError (E : Type 0) : Type 0 where
  issue_failed load_failed : E → ManagerError E
  not_loaded : Text → ManagerError E

module _ (s : CertificateStore) where
  open s use {State, Cert, Error, get_certificate, issue, renew}

  -- The manager, with the state of its store.
  pub record TlsManager : Type 0 where
    pub cert_name : Text
    pub cert : Option Cert
    pub store : State

  -- The request for the first certificate: thirty days, for the name and for the local host.
  abbrev pub bootstrap_request : Text → CertificateRequest
  bootstrap_request name = record {
    common_name = name;
    dns_names = name ∷ codes "localhost" ∷ [];
    validity = 30 * (24 * 60 * 60 * 1000000000);
    key_type = rsa;
  }

  -- The read behind the issue of a certificate.
  unfoldable pub reload : TlsManager → Result (ManagerError Error) (Unit {0}) × TlsManager
  reload m = elim (get_certificate m.store m.cert_name) [
    | err e ↦ (err (load_failed e), m)
    | ok cert ↦ (ok tt, record m { cert = some cert })
  ]

  unfoldable pub load_or_bootstrap :
      ℕ → TlsManager → Option (Result (ManagerError Error) (Unit {0}) × TlsManager)
  unfolding reload
  load_or_bootstrap now m = elim (get_certificate m.store m.cert_name) [
    | ok cert ↦ some (ok tt, record m { cert = some cert })
    | err _ ↦ elim (issue now (bootstrap_request m.cert_name) m.store) [
      | none ↦ none
      | some (err e, st) ↦ some (err (issue_failed e), record m { store = st })
      | some (ok _, st) ↦ some (reload (record m { store = st }))
    ]
  ]

  -- The manager, or the error, and the state of the store.
  unfoldable pub new_tls_manager :
      ℕ → Text → State → Option (Result (ManagerError Error) TlsManager × State)
  unfolding load_or_bootstrap
  new_tls_manager now name st =
      elim (load_or_bootstrap now (record { cert_name = name; cert = none; store = st })) [
        | none ↦ none
        | some (err e, m) ↦ some (err e, m.store)
        | some (ok _, m) ↦ some (ok m, m.store)
      ]

  -- What the TLS handshake asks for.
  unfoldable pub present : TlsManager → Result (ManagerError Error) Cert
  present m = elim m.cert [ none ↦ err (not_loaded m.cert_name) | some cert ↦ ok cert ]

  -- A tick of `StartRenewalLoop`; its errors are dropped.
  unfoldable pub tick : ℕ → TlsManager → Option TlsManager
  unfolding load_or_bootstrap
  tick now m = elim (renew now m.cert_name m.store) [
    | none ↦ none
    | some (err _, st) ↦ some (record m { store = st })
    | some (ok _, st) ↦ elim (load_or_bootstrap now (record m { store = st })) [
      | none ↦ none
      | some (_, m') ↦ some m'
    ]
  ]

  -- The ticks at the given moments.
  unfoldable pub tick_all : List ℕ → TlsManager → Option TlsManager
  unfolding tick
  tick_all [] m = some m
  tick_all (now ∷ moments) m = elim (tick now m) [ none ↦ none | some m' ↦ tick_all moments m' ]
