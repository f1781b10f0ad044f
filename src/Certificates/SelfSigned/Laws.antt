-- ===== src/Certificates/SelfSigned/Laws.antt =====
-- internal/secrets/selfsigned.go: what is issued is what is loaded.
use porcelain.Prelude.{
  ℕ, List, ◌++◌, some, some_inj, ok_inj, inl, inr, subst, ok, err, ◌≡◌, ◌≢◌, refl, sym, ap,
  append_cancel_left, Result-cases, Option-cases, ◌∙◌,
}
use porcelain.Text.{Text, codes}
use porcelain.Certificates.{
  Bytes, SecretStore, Lawful, KeyType, CertificateRequest, Template, Crypto, Certificate,
}
use porcelain.Certificates.SelfSigned.{
  SelfSignedStore, certificate_path, certificate_file, key_file, read_pair, get_certificate,
  draw_key, Issued, sign, issue_self_signed_pair, keep, certificate_name, names_for, valid_for,
  issue,
}

-- The two files of a certificate are two secrets.
pub certificate_path_differs :
    (name : Text) → certificate_path name certificate_file ≢ certificate_path name key_file
unfolding certificate_path
certificate_path_differs name e =
    let files =
      append_cancel_left (codes "certificates/" ++ name ++ codes "/") certificate_file key_file e in
    cc files

module _ (c : Crypto) (s : SecretStore) where
  open s use {State, Error, get, put}

  -- An issued pair reads back as itself.
  abbrev Readable : Issued c s → Type 0
  Readable issued = read_pair c s issued.certificate_pem issued.key_pem ≡ ok issued.certificate

  sign-Readable :
      (template : Template) (drawn : c.Key × Bytes) (issued : Issued c s)
      → sign c s template drawn ≡ ok issued
      → Readable issued
  unfolding sign read_pair
  sign-Readable template (key, pem) issued e =
      elim (Result-cases (c.create_certificate template key)) [
        | inl (_, failed) ↦ absurd (cc (rw (sign, failed) at e))
        | inr (der, made) ↦ elim (Result-cases (c.key_pair (c.encode_pem "CERTIFICATE" der) pem)) [
          | inl (_, failed) ↦ absurd (cc (rw (sign, made, failed) at e))
          | inr (pair, parsed) ↦
              let same = ok_inj (rw (sign, made, parsed) at e) in
              subst Readable same (rw (read_pair, parsed) refl)
        ]
      ]

  issue_self_signed_pair-Readable :
      (now : ℕ) (name : Text) (dns : List Text) (valid_for : ℕ) (key_type : KeyType)
      (issued : Issued c s)
      → issue_self_signed_pair c s now name dns valid_for key_type ≡ ok issued
      → Readable issued
  unfolding issue_self_signed_pair draw_key
  issue_self_signed_pair-Readable now name dns valid_for key_type issued e =
      elim (Result-cases (c.draw_serial now)) [
        | inl (_, failed) ↦ absurd (cc (rw (issue_self_signed_pair, failed) at e))
        | inr (serial, drawn) ↦ elim (Result-cases (draw_key c s now key_type)) [
          | inl (_, failed) ↦ absurd (cc (rw (issue_self_signed_pair, drawn, failed) at e))
          | inr (key, known) ↦
              sign-Readable _ key issued (rw (issue_self_signed_pair, drawn, known) at e)
        ]
      ]

  -- What is kept can be loaded under its name.
  keep_loads :
      (lawful : Lawful s) (now : ℕ) (name : Text) (issued : Issued c s) (cert : Certificate c)
      (st st' : State)
      → Readable issued
      → keep c s now name issued st ≡ some (ok cert, st')
      → get_certificate c s st' name ≡ ok cert
  unfolding keep get_certificate
  keep_loads lawful now name issued cert st st' readable e =
      let cert_path = certificate_path name certificate_file in
      let key_path = certificate_path name key_file in
      elim (Option-cases (put now cert_path issued.certificate_pem st)) [
        | inl panics ↦ absurd (cc (rw (keep, panics) at e))
        | inr ((err _, _), first) ↦ absurd (cc (rw (keep, first) at e))
        | inr ((ok _, st1), first) ↦ elim (Option-cases (put now key_path issued.key_pem st1)) [
          | inl panics ↦ absurd (cc (rw (keep, first, panics) at e))
          | inr ((err _, _), second) ↦ absurd (cc (rw (keep, first, second) at e))
          | inr ((ok _, st2), second) ↦
              let same = some_inj (rw (keep, first, second) at e) in
              let cert_kept =
                lawful.get-put_other now key_path cert_path issued.key_pem st1 st2 second
                  (λ eq. certificate_path_differs name (sym eq))
                ∙ lawful.get-put now cert_path issued.certificate_pem st st1 first in
              let key_kept = lawful.get-put now key_path issued.key_pem st1 st2 second in
              let loaded : get_certificate c s st2 name ≡ ok issued.certificate =
                rw (get_certificate, cert_kept, key_kept) readable in
              subst (λ st''. get_certificate c s st'' name ≡ ok cert) (ap (λ r. r.1) same)
                (loaded ∙ ap (λ r. r.0) same)
        ]
      ]

  module _ (config : SelfSignedStore) where
    -- Over a secret store that keeps what is put and leaves other paths alone, a certificate that
    -- was issued is the one that is then loaded under its name.
    pub get_certificate-issue :
        (now : ℕ) (req : CertificateRequest) (cert : Certificate c) (st st' : State)
        → Lawful s
        → issue c s config now req st ≡ some (ok cert, st')
        → get_certificate c s st' (certificate_name c s config req) ≡ ok cert
    unfolding issue
    get_certificate-issue now req cert st st' lawful e =
        let name = certificate_name c s config req in
        elim (Result-cases (
          issue_self_signed_pair c s now name (names_for c s config req) (valid_for c s config req)
            req.key_type)) [
              | inl (_, failed) ↦ absurd (cc (rw (issue, failed) at e))
              | inr (issued, made) ↦
                  let readable =
                    issue_self_signed_pair-Readable now name (names_for c s config req)
                      (valid_for c s config req) req.key_type issued made in
                  keep_loads lawful now name issued cert st st' readable (rw (issue, made) at e)
            ]
