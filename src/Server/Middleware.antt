-- ===== src/Server/Middleware.antt =====
-- The chain in front of every handler of internal/server/router.go (`NewRouter`): the mutual-TLS
-- middleware of internal/server/middleware/mtls.go, then the authentication middleware of
-- internal/auth/dex.go.
pub mod Laws
use porcelain.Prelude.{
  ℕ, String, Bool, true, false, List, [], ◌∷◌, Option, none, some, if◌then◌else◌, ◌≡◌, refl, arith,
  ◌≢◌, ◌↔◌, ◌⊎◌, inl, inr,
}
use porcelain.Text.{Text, trim_space}
use porcelain.Auth.{Claims, Headers, go_on, unauthorized}
use porcelain.Auth
use porcelain.Server.{
  PeerIdentity, Request, Body, note, Response, Fiber, App, Reply, Handler, sent, send_status,
}

-- The verified leaf certificate, as crypto/x509 gives it; `digest` is its lower-case hexadecimal
-- SHA-256 sum, and `serial` its serial number in decimal.
pub record Certificate : Type 0 where
  pub digest : Text
  pub subject_common_name : Text
  pub subject_organization : List Text
  pub dns_names : List Text
  pub email_addresses : List Text
  pub serial : Text
  pub issuer_common_name : Text

unfoldable pub new_peer_identity : Certificate → PeerIdentity
new_peer_identity leaf = record {
  common_name = trim_space leaf.subject_common_name;
  organizations = leaf.subject_organization;
  dns_names = leaf.dns_names;
  email_addresses = leaf.email_addresses;
  serial_number = leaf.serial;
  fingerprint_sha256 = leaf.digest;
  issuer_common_name = trim_space leaf.issuer_common_name;
}

-- A request before the middleware: the certificates of the TLS connection, and the headers.
pub record Incoming : Type 0 where
  pub peer_certificates : List Certificate
  pub headers : Headers
  pub request : Request

module _ (fiber : Fiber) {F : Type 0} where
  -- `MTLSPeerIdentity` in front of `next`. A connection without TLS has no certificates.
  unfoldable pub mtls_peer_identity : (Request → Handler F) → List Certificate → Request → Handler F
  unfolding new_peer_identity send_status
  mtls_peer_identity next [] req app response =
      sent app (send_status fiber 401 (note "missing client certificate") response)
  mtls_peer_identity next (leaf ∷ _) req app response =
      next (record req { peer = some (new_peer_identity leaf) }) app response

  -- What the authentication middleware does with its verdict, in front of `next`.
  unfoldable pub with_verdict : (Request → Handler F) → Auth.Verdict → Request → Handler F
  unfolding send_status
  with_verdict next (go_on none) req app response = next req app response
  with_verdict next (go_on (some claims)) req app response =
      next (record req { claims = some claims }) app response
  with_verdict next unauthorized req app response =
      sent app (send_status fiber 401 (note "missing bearer token") response)

  -- The two in the order of `NewRouter`. The request has no stored values at first.
  unfoldable pub serve : Bool → (Request → Handler F) → Incoming → Handler F
  unfolding mtls_peer_identity with_verdict
  serve auth_enabled next i =
      mtls_peer_identity (λ req. with_verdict next (Auth.middleware auth_enabled i.headers) req)
        i.peer_certificates (record i.request { claims = none; peer = none })
