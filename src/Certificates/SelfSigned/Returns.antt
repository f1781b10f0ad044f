-- ===== src/Certificates/SelfSigned/Returns.antt =====
-- internal/secrets/selfsigned.go: over a secret store whose writes return, the operations return.
use porcelain.Prelude.{ℕ, Option, some, Result, ok, err, ◌≡◌, refl, Result-cases, inl, inr}
use porcelain.Text.{Text}
use porcelain.Certificates.{
  Bytes, SecretStore, CertificateRequest, Crypto, CertificateError, store_error,
}
use porcelain.Certificates.SelfSigned.{
  SelfSignedStore, certificate_path, certificate_file, key_file, Issued, issue_self_signed_pair,
  keep, certificate_name, names_for, valid_for, issue, renewal_request, renew, self_signed_store,
}
use porcelain.Certificates.Manager.Laws.{Returns}

-- `put` returns from every state of a kind, and stays in it.
pub record PutReturns (s : SecretStore) (P : s.State → Type 0) : Type 0 where
  pub put_returns :
      (now : ℕ) (path : Text) (bytes : Bytes) (st : s.State)
      → P st
      → (r : Result s.Error (Unit {0})) × (st' : s.State) × (s.put now path bytes st
          ≡ some (r, st'))
        × P st'

module _ (c : Crypto) (s : SecretStore) (config : SelfSignedStore) (P : s.State → Type 0)
    (returns : PutReturns s P) where
  -- A run that returns, in a state of the kind.
  abbrev Ends : {A : Type 0} → Option (Result (CertificateError s.Error) A × s.State) → Type 0
  Ends {A} run =
      (r : Result (CertificateError s.Error) A) × (st : s.State) × (run ≡ some (r, st)) × P st

  keep_returns :
      (now : ℕ) (name : Text) (issued : Issued c s) (st : s.State)
      → P st
      → Ends (keep c s now name issued st)
  unfolding keep
  keep_returns now name issued st p =
      first (
        returns.put_returns now (certificate_path name certificate_file) issued.certificate_pem st
          p)
    where
      second :
          (st1 : s.State)
          → s.put now (certificate_path name certificate_file) issued.certificate_pem st
            ≡ some (ok tt, st1)
          → (r : Result s.Error (Unit {0})) × (st2 : s.State) × (s.put now
                (certificate_path name key_file)
                issued.key_pem
                st1
              ≡ some (r, st2))
            × P st2
          → Ends (keep c s now name issued st)
      second st1 kept (err e, st2, put, q) =
          (err (store_error e), st2, rw (keep, kept, put) refl, q)
      second st1 kept (ok _, st2, put, q) =
          (ok issued.certificate, st2, rw (keep, kept, put) refl, q)

      first :
          (r : Result s.Error (Unit {0})) × (st1 : s.State) × (s.put now
                (certificate_path name certificate_file)
                issued.certificate_pem
                st
              ≡ some (r, st1))
            × P st1
          → Ends (keep c s now name issued st)
      first (err e, st1, put, q) = (err (store_error e), st1, rw (keep, put) refl, q)
      first (ok _, st1, put, q) =
          second st1 put
            (returns.put_returns now (certificate_path name key_file) issued.key_pem st1 q)

  issue_returns :
      (now : ℕ) (req : CertificateRequest) (st : s.State)
      → P st
      → Ends (issue c s config now req st)
  unfolding issue
  issue_returns now req st p =
      let name = certificate_name c s config req in
      elim (Result-cases (
        issue_self_signed_pair c s now name (names_for c s config req) (valid_for c s config req)
          req.key_type)) [
            | inl (e, failed) ↦ (err e, st, rw (issue, failed) refl, p)
            | inr (issued, made) ↦
                let (r, st', kept, q) = keep_returns now name issued st p in
                (r, st', rw (issue, made, kept) refl, q)
          ]

  renew_returns :
      (now : ℕ) (name : Text) (st : s.State) → P st → Ends (renew c s config now name st)
  unfolding renew
  renew_returns now name st p = renewed (issue_returns now (renewal_request c s config name) st p)
    where
      renewed :
          Ends (issue c s config now (renewal_request c s config name) st)
          → Ends (renew c s config now name st)
      renewed (err e, st', issued, q) = (err e, st', rw (renew, issued) refl, q)
      renewed (ok _, st', issued, q) = (ok tt, st', rw (renew, issued) refl, q)

  pub self_signed_store-Returns : Returns (self_signed_store c s config) P
  self_signed_store-Returns = record {
    issue_returns = issue_returns;
    renew_returns = renew_returns;
  }
