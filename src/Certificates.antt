-- ===== src/Certificates.antt =====
-- pkg/secrets/interfaces.go: the interfaces of secret stores and of certificate stores, with what a
-- client of a secret store relies on; and the cryptography of Go's library, which is a parameter.
-- Times are nanoseconds. Random numbers depend on the moment at which they are drawn.
pub mod SelfSigned
pub mod Manager
pub mod Filesystem
pub mod Memory
pub mod Backends
mod Tests
use porcelain.Prelude.{
  ℕ, String, Bool, List, [], ◌∷◌, Option, none, some, Result, ok, err, ◌≡◌, ◌≢◌,
}
use porcelain.Text.{Text}

abbrev pub Bytes : Type 0
Bytes = List ℕ

-- `Get` and `Put`, which are all that the certificate stores call. A `put` that panics is `none`.
pub record SecretStore : Type 1 where
  pub State : Type 0
  pub Error : Type 0
  pub get : State → Text → Result Error Bytes
  pub put : ℕ → Text → Bytes → State → Option (Result Error (Unit {0}) × State)

module _ (s : SecretStore) where
  open s use {State, get, put}

  -- What a client relies on: what is put is read again, and other paths are left alone.
  pub record Lawful : Type 0 where
    pub get-put :
        (now : ℕ) (path : Text) (bytes : Bytes) (st st' : State)
        → put now path bytes st ≡ some (ok tt, st')
        → get st' path ≡ ok bytes
    pub get-put_other :
        (now : ℕ) (path other : Text) (bytes : Bytes) (st st' : State)
        → put now path bytes st ≡ some (ok tt, st')
        → path ≢ other
        → get st' other ≡ get st other

-- `KeyTypeRSA` is 0, which is also the value of a request that names no type.
pub data KeyType : Type 0 where
  rsa ecdsa ed25519 : KeyType
  other_key : ℕ → KeyType

-- The fields of a request that a store reads.
pub record CertificateRequest : Type 0 where
  pub common_name : Text
  pub dns_names : List Text
  pub validity : ℕ
  pub key_type : KeyType

-- The fields of a certificate that depend on the request.
pub record Template : Type 0 where
  pub serial_number : ℕ
  pub subject : Text
  pub not_before : ℕ
  pub not_after : ℕ
  pub dns_names : List Text

-- Go's cryptography: random serial numbers and keys, the encoding of keys and certificates, and
-- their parsing. `chain` holds the certificates of a parsed pair, of which there is at least one.
pub record Crypto : Type 1 where
  pub Key : Type 0
  pub Pair : Type 0
  pub Leaf : Type 0
  pub Pool : Type 0
  pub draw_serial : ℕ → Result Text ℕ
  pub draw_rsa : ℕ → Result Text Key
  pub draw_ed25519 : ℕ → Result Text Key
  pub marshal_rsa : Key → Bytes
  pub marshal_ed25519 : Key → Result Text Bytes
  pub create_certificate : Template → Key → Result Text Bytes
  pub encode_pem : String → Bytes → Bytes
  pub key_pair : Bytes → Bytes → Result Text Pair
  pub chain : Pair → List Bytes
  pub parse_certificate : Bytes → Option Leaf
  pub append_certs : Bytes → Option Pool
  pub not_after : Leaf → ℕ

-- `tls.Certificate`, with the leaf if it could be parsed.
pub record Certificate (c : Crypto) : Type 0 where
  pub pair : c.Pair
  pub leaf : Option c.Leaf

-- The errors of certificate stores: one of the secret store, a text with the error of the library,
-- and a fixed text.
pub data CertificateError (E : Type 0) : Type 0 where
  store_error : E → CertificateError E
  labelled_error : String → Text → CertificateError E
  unsupported_key : KeyType → CertificateError E
  fixed_error : String → CertificateError E
  named_error : String → Text → CertificateError E

-- The operations of a certificate store that the TLS manager calls. An operation that panics is
-- `none`.
pub record CertificateStore : Type 1 where
  pub State : Type 0
  pub Cert : Type 0
  pub Error : Type 0
  pub get_certificate : State → Text → Result Error Cert
  pub issue : ℕ → CertificateRequest → State → Option (Result Error Cert × State)
  pub renew : ℕ → Text → State → Option (Result Error (Unit {0}) × State)

-- The parse of the first certificate of a pair.
abbrev pub first_leaf : (c : Crypto) → List Bytes → Option c.Leaf
first_leaf c [] = none
first_leaf c (bytes ∷ _) = c.parse_certificate bytes

unfoldable pub with_leaf : (c : Crypto) → c.Pair → Certificate c
with_leaf c pair = record { pair = pair; leaf = first_leaf c (c.chain pair) }
