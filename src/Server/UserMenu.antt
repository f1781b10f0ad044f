-- ===== src/Server/UserMenu.antt =====
-- internal/server/router.go: who is logged in, as the user menu shows it (`buildUserInfo`), and which
-- block of a page a request receives (`renderPage`, `isHTMXPartial`).
pub mod Laws
mod Tests
use porcelain.Prelude.{
  ℕ, Bool, true, false, ◌&&◌, not, List, [], ◌∷◌, Option, none, some, if◌then◌else◌, is_nil,
}
use porcelain.Text.{Text, codes, ◌==◌}
use porcelain.Auth.{Claims}
use porcelain.Server.{PeerIdentity}
use porcelain.Server.Badges.{initials_for}

pub record UserInfo : Type 0 where
  pub name : Text
  pub initials : Text
  pub email : Text
  pub groups : List Text

unfoldable pub first_non_empty : List Text → Text
first_non_empty [] = []
first_non_empty (v ∷ vs) = if not (is_nil v) then v else first_non_empty vs

-- Whether claims name a subject.
unfoldable pub is_named : Claims → Bool
unfolding ◌==◌
is_named claims = not (is_nil claims.subject) && not (claims.subject == codes "unknown")

-- `empty_slice` is what a slice of an empty name gives in `initialsFor`.
module _ (empty_slice : Option Text) where
  -- `none` is a panic of `initialsFor`.
  unfoldable pub with_name : Text → UserInfo → Option UserInfo
  unfolding initials_for
  with_name name info = elim (initials_for empty_slice name) [
    | none ↦ none
    | some initials ↦ some (record info { name = name; initials = initials })
  ]

  -- The identity of the client's certificate.
  unfoldable pub with_peer : Option PeerIdentity → UserInfo → Option UserInfo
  unfolding with_name first_non_empty
  with_peer none info = some info
  with_peer (some identity) info =
      with_name identity.common_name
        (record info { email = first_non_empty identity.email_addresses })

  -- The claims of the token, which go before the certificate.
  unfoldable pub with_claims : Option Claims → UserInfo → Option UserInfo
  unfolding with_name is_named
  with_claims none info = some info
  with_claims (some claims) info =
      let grouped : UserInfo = record info { groups = claims.groups } in
      if is_named claims then with_name claims.subject grouped else some grouped

  unfoldable pub build_user_info : Option PeerIdentity → Option Claims → Option UserInfo
  unfolding with_peer with_claims
  build_user_info peer claims =
      let anonymous : UserInfo = record {
        name = codes "anonymous";
        initials = codes "?";
        email = [];
        groups = [];
      } in
      elim (with_peer peer anonymous) [ none ↦ none | some info ↦ with_claims claims info ]

-- Over the headers `HX-Request` and `HX-Boosted`.
unfoldable pub is_htmx_partial : Text → Text → Bool
unfolding ◌==◌
is_htmx_partial request boosted = request == codes "true" && not (boosted == codes "true")

-- The block of the page that `renderPage` writes.
unfoldable pub block_of : Text → Text → Text
unfolding is_htmx_partial
block_of request boosted = if is_htmx_partial request boosted then codes "content" else codes "base"
