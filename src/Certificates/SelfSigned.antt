-- ===== src/Certificates/SelfSigned.antt =====
-- internal/secrets/selfsigned.go: certificates that the program issues itself, over any secret store.
pub mod Laws
pub mod Returns
use porcelain.Prelude.{
  ℕ, ◌+◌, ◌-◌, ◌*◌, String, Bool, true, false, List, [], ◌∷◌, ◌++◌, Option, none, some,
  if◌then◌else◌, Result, ok, err, is_nil, eqb,
}
use porcelain.Text.{Text, codes}
use porcelain.Certificates.{
  Bytes, SecretStore, KeyType, rsa, ecdsa, ed25519, other_key, CertificateRequest, Template, Crypto,
  Certificate, CertificateError, store_error, labelled_error, unsupported_key, fixed_error,
  named_error, CertificateStore, with_leaf,
}

-- `SelfSignedStore`; the state of the secret store is kept apart.
pub record SelfSignedStore : Type 0 where
  pub default_common_name : Text
  pub default_dns_names : List Text
  pub valid_days : ℕ

unfoldable pub certificate_path : Text → Text → Text
certificate_path name file = codes "certificates/" ++ name ++ codes "/" ++ file

abbrev pub certificate_file : Text
certificate_file = codes "cert.pem"

abbrev pub key_file : Text
key_file = codes "key.pem"

-- Five minutes and a day.
abbrev five_minutes : ℕ
five_minutes = 5 * 60 * 1000000000

abbrev pub day : ℕ
day = 24 * 60 * 60 * 1000000000

module _ (c : Crypto) (s : SecretStore) where
  open s use {State, Error, get, put}

  -- Both files, and the pair that they make.
  unfoldable pub read_pair : Bytes → Bytes → Result (CertificateError Error) (Certificate c)
  unfolding with_leaf
  read_pair cert key = elim (c.key_pair cert key) [
    | err e ↦ err (labelled_error "parse certificate key pair" e)
    | ok pair ↦ ok (with_leaf c pair)
  ]

  unfoldable pub get_certificate : State → Text → Result (CertificateError Error) (Certificate c)
  unfolding certificate_path read_pair
  get_certificate st name = elim (get st (certificate_path name certificate_file)) [
    | err e ↦ err (store_error e)
    | ok cert ↦ elim (get st (certificate_path name key_file)) [
      | err e ↦ err (store_error e)
      | ok key ↦ read_pair cert key
    ]
  ]

  unfoldable pub get_ca : State → Text → Result (CertificateError Error) c.Pool
  unfolding certificate_path
  get_ca st name = elim (get st (certificate_path name certificate_file)) [
    | err e ↦ err (store_error e)
    | ok cert ↦ elim (c.append_certs cert) [
      | none ↦ err (named_error "append CA bundle" name)
      | some pool ↦ ok pool
    ]
  ]

  -- The switch of `issueSelfSignedPair`: a key, with its PEM text.
  unfoldable pub draw_key : ℕ → KeyType → Result (CertificateError Error) (c.Key × Bytes)
  draw_key now ed25519 = elim (c.draw_ed25519 now) [
    | err e ↦ err (labelled_error "generate Ed25519 private key" e)
    | ok key ↦ elim (c.marshal_ed25519 key) [
      | err e ↦ err (labelled_error "marshal Ed25519 private key" e)
      | ok bytes ↦ ok (key, c.encode_pem "PRIVATE KEY" bytes)
    ]
  ]
  draw_key now (other_key n) = err (unsupported_key (other_key n))
  draw_key now _ = elim (c.draw_rsa now) [
    | err e ↦ err (labelled_error "generate RSA private key" e)
    | ok key ↦ ok (key, c.encode_pem "RSA PRIVATE KEY" (c.marshal_rsa key))
  ]

  -- What a call of `issueSelfSignedPair` gives: two PEM texts, and the pair that they make.
  pub record Issued : Type 0 where
    pub certificate_pem : Bytes
    pub key_pem : Bytes
    pub certificate : Certificate c

  -- The part of `issueSelfSignedPair` behind the choice of a key.
  unfoldable pub sign : Template → c.Key × Bytes → Result (CertificateError Error) Issued
  unfolding with_leaf
  sign template (key, key_pem) = elim (c.create_certificate template key) [
    | err e ↦ err (labelled_error "create self-signed certificate" e)
    | ok der ↦
        let pem = c.encode_pem "CERTIFICATE" der in
        elim (c.key_pair pem key_pem) [
          | err e ↦ err (labelled_error "parse generated key pair" e)
          | ok pair ↦
              ok (record {
                certificate_pem = pem;
                key_pem = key_pem;
                certificate = with_leaf c pair;
              })
        ]
  ]

  unfoldable pub issue_self_signed_pair :
      ℕ → Text → List Text → ℕ → KeyType → Result (CertificateError Error) Issued
  unfolding draw_key sign
  issue_self_signed_pair now common_name dns_names valid_for key_type = elim (c.draw_serial now) [
    | err e ↦ err (labelled_error "generate serial number" e)
    | ok serial ↦
        let not_before = now - five_minutes in
        elim (draw_key now key_type) [
          | err e ↦ err e
          | ok drawn ↦
              sign
                (record {
                  serial_number = serial;
                  subject = common_name;
                  not_before = not_before;
                  not_after = not_before + valid_for;
                  dns_names = dns_names;
                })
                drawn
        ]
  ]

  -- The two calls of `Put` that keep an issued pair.
  unfoldable pub keep :
      ℕ → Text → Issued → State → Option (Result (CertificateError Error) (Certificate c) × State)
  unfolding certificate_path
  keep now name issued st =
      elim (put now (certificate_path name certificate_file) issued.certificate_pem st) [
        | none ↦ none
        | some (err e, st1) ↦ some (err (store_error e), st1)
        | some (ok _, st1) ↦ elim (put now (certificate_path name key_file) issued.key_pem st1) [
          | none ↦ none
          | some (err e, st2) ↦ some (err (store_error e), st2)
          | some (ok _, st2) ↦ some (ok issued.certificate, st2)
        ]
      ]

  module _ (config : SelfSignedStore) where
    -- The name, the lifetime and the DNS names of a request, with the defaults.
    unfoldable pub certificate_name : CertificateRequest → Text
    certificate_name req =
        if is_nil req.common_name then config.default_common_name else req.common_name

    abbrev pub valid_for : CertificateRequest → ℕ
    valid_for req = if eqb req.validity 0 then config.valid_days * day else req.validity

    abbrev pub names_for : CertificateRequest → List Text
    names_for req = if is_nil req.dns_names then config.default_dns_names else req.dns_names

    unfoldable pub issue :
        ℕ
        → CertificateRequest
        → State
        → Option (Result (CertificateError Error) (Certificate c) × State)
    unfolding certificate_name issue_self_signed_pair keep
    issue now req st =
        let name = certificate_name req in
        elim (issue_self_signed_pair now name (names_for req) (valid_for req) req.key_type) [
          | err e ↦ some (err e, st)
          | ok issued ↦ keep now name issued st
        ]

    -- `Renew` asks for no key type, which is RSA.
    abbrev pub renewal_request : Text → CertificateRequest
    renewal_request name = record {
      common_name = name;
      dns_names = config.default_dns_names;
      validity = config.valid_days * day;
      key_type = rsa;
    }

    unfoldable pub renew :
        ℕ → Text → State → Option (Result (CertificateError Error) (Unit {0}) × State)
    unfolding issue
    renew now name st = elim (issue now (renewal_request name) st) [
      | none ↦ none
      | some (err e, st') ↦ some (err e, st')
      | some (ok _, st') ↦ some (ok tt, st')
    ]

    -- The remaining lifetime, as the end of the lifetime and the time now.
    unfoldable pub get_expiry : ℕ → State → Text → Result (CertificateError Error) (ℕ × ℕ)
    unfolding get_certificate
    get_expiry now st name = elim (get_certificate st name) [
      | err e ↦ err e
      | ok cert ↦ elim cert.leaf [
        | none ↦ err (named_error "certificate does not have a parsed leaf" name)
        | some leaf ↦ ok (c.not_after leaf, now)
      ]
    ]

    -- The store as the TLS manager sees it.
    abbrev pub self_signed_store : CertificateStore
    self_signed_store = record {
      State = State;
      Cert = Certificate c;
      Error = CertificateError Error;
      get_certificate = get_certificate;
      issue = issue;
      renew = renew;
    }
