-- ===== src/Server.antt =====
-- internal/server/router.go: requests, responses, and the gate that write handlers call first.
-- The web framework (Fiber) is not part of the program: what its `SendString` and `JSON` do is a
-- parameter. A handler returns `none` if it never returns.
pub mod Middleware
pub mod PodmanRoutes
pub mod ZfsRoutes
pub mod SensorsRoutes
pub mod BusRoutes
pub mod CloudflareRoutes
pub mod Pages
pub mod Static
pub mod UserMenu
pub mod Listen
pub mod DiagnosticsPage
pub mod Bundle
pub mod HistoryRoutes
pub mod Dashboard
pub mod Gate
pub mod Badges
pub mod Stream
mod Tests
use porcelain.Prelude.{
  ℕ, String, Bool, true, false, List, [], ◌∷◌, ◌++◌, Option, none, some, if◌then◌else◌, Result, ok,
  err,
}
use porcelain.Text.{Text, codes, ◌==◌}
use porcelain.Text.Escape.{escape_html}
use porcelain.Host.{World}
use porcelain.Policy.{Input, Decision, PolicyError, OpaStyleAuthorizer, authorize}
use porcelain.Auth.{Claims}
use porcelain.Registry.{Registry, get}
use porcelain.Podman
use porcelain.Podman.{PodmanError}
use porcelain.Sensors
use porcelain.Sensors.{SensorsError}
use porcelain.Zfs
use porcelain.Dbus.{Calls, BusError}
use porcelain.Storage
use porcelain.Diagnostics
use porcelain.Network
use porcelain.Cloudflare
use porcelain.Cloudflare.{CloudflareError}
use porcelain.Zfs.Commands.{ZfsError}

-- The fields of the verified client certificate that the handlers read.
pub record PeerIdentity : Type 0 where
  pub common_name : Text
  pub organizations : List Text
  pub dns_names : List Text
  pub email_addresses : List Text
  pub serial_number : Text
  pub fingerprint_sha256 : Text
  pub issuer_common_name : Text

-- A request as a handler sees it: path parameters, form values, query values and the values that
-- the middleware has stored (`c.Locals`). What is absent is the empty text.
pub record Request : Type 0 where
  pub param : String → Text
  pub form : String → Text
  pub query : String → Text
  pub devices : List Text
  pub claims : Option Claims
  pub peer : Option PeerIdentity

-- What a handler sends: a fixed text, the text of an error, `{"status":"ok"}`, a page, or other JSON.
pub data Body : Type 0 where
  empty status_ok : Body
  note : String → Body
  policy_denied : String → Body
  policy_error : PolicyError → Body
  podman_error : PodmanError → Body
  zfs_error : ZfsError → Body
  sensors_error : SensorsError → Body
  bus_error : BusError → Body
  cloudflare_error : CloudflareError → Body
  json_text : Text → Body
  html : Text → Body

pub record Response : Type 0 where
  pub status : ℕ
  pub body : Body

-- The error that `SendString` or `JSON` returns, if any, and the response after the call.
pub record Fiber : Type 0 where
  pub send_string : Body → Response → Option Text × Response
  pub send_json : Body → Response → Option Text × Response

-- The modules that the registry may hold; `foreign` stands for one of any other type.
pub data HostModule (F : Type 0) : Type 0 where
  podman_module : Podman.Module → HostModule F
  zfs_module : Zfs.Module F → HostModule F
  sensors_module : Sensors.Module F → HostModule F
  storage_module : Storage.Module → HostModule F
  diagnostics_module : Diagnostics.Module → HostModule F
  network_module : Network.Module → HostModule F
  firewall_module : Network.Module → HostModule F
  cloudflare_module : Cloudflare.Module → HostModule F
  foreign : Text → HostModule F

-- The registry, if there is one, the commands that were run on the host, and the calls that were
-- made on the bus.
pub record App (F : Type 0) : Type 0 where
  pub registry : Option (Registry (HostModule F))
  pub world : World
  pub calls : Calls

-- The error that the handler returns, the state and the response.
pub record Reply (F : Type 0) : Type 0 where
  pub error : Option Text
  pub app : App F
  pub response : Response

-- A handler: the state and the response so far, to the reply.
abbrev pub Handler : Type 0 → Type 0
Handler F = App F → Response → Option (Reply F)

-- The text of `<pre>` pages.
unfoldable pub pre_page : Text → Body
pre_page s = html (
    codes "<pre class=\"m-0 whitespace-pre-wrap font-mono text-xs leading-relaxed\">"
    ++ escape_html s
    ++ codes "</pre>")

abbrev pub no_claims : Claims
no_claims = record { subject = []; groups = []; token = [] }

abbrev pub no_peer : PeerIdentity
no_peer = record {
  common_name = [];
  organizations = [];
  dns_names = [];
  email_addresses = [];
  serial_number = [];
  fingerprint_sha256 = [];
  issuer_common_name = [];
}

-- The zero value where the middleware has stored none.
abbrev pub or_zero : {A : Type 0} → A → Option A → A
or_zero zero_value none = zero_value
or_zero zero_value (some a) = a

-- The input that `authorizeWrite` gives to the policy.
abbrev pub write_input : Request → Text → Text → Input
write_input req action resource =
    let claims = or_zero no_claims req.claims in
    let peer = or_zero no_peer req.peer in
    record {
      subject = claims.subject;
      groups = claims.groups;
      action = codes "write." ++ action;
      resource = resource;
      peer_cn = peer.common_name;
      peer_fp = peer.fingerprint_sha256;
      auth_token = claims.token;
    }

-- The reply of a handler that ends with what `SendString` or `JSON` returns.
abbrev pub sent : {F : Type 0} → App F → Option Text × Response → Option (Reply F)
sent app (e, response) = some (record { error = e; app = app; response = response })

module _ (fiber : Fiber) where
  -- `c.Status(code).SendString(body)`: its error, and the response.
  unfoldable pub send_status : ℕ → Body → Response → Option Text × Response
  send_status code body response = fiber.send_string body (record response { status = code })

  -- `authorizeWrite`: the error that it returns, and the response.
  unfoldable pub authorize_write :
      OpaStyleAuthorizer → Request → Text → Text → Response → Option Text × Response
  unfolding send_status
  authorize_write authorizer req action resource response =
      elim (authorize authorizer (write_input req action resource)) [
        | err e ↦ send_status 500 (policy_error e) response
        | ok decision ↦
            if decision.allowed
            then (none, response)
            else send_status 403 (policy_denied decision.reason) response
      ]

  module _ {F : Type 0} where
    unfoldable pub fail : ℕ → Body → Handler F
    unfolding send_status
    fail code body app response = sent app (send_status code body response)

    -- `if err := …; err != nil { return err }`, and the rest of a handler.
    unfoldable pub unless_error : Handler F → App F → Option Text × Response → Option (Reply F)
    unless_error rest app (some e, response) = sent app (some e, response)
    unless_error rest app (none, response) = rest app response

    -- The call of `authorizeWrite` in front of the rest of a handler.
    unfoldable pub gated : OpaStyleAuthorizer → Request → Text → Text → Handler F → Handler F
    unfolding unless_error
    gated authorizer req action resource rest app response =
        unless_error rest app (authorize_write authorizer req action resource response)

    -- The look-up of a module by its identifier, with the messages for a missing registry and a
    -- missing module.
    unfoldable pub with_module :
        Text → String → (Registry (HostModule F) → HostModule F → Handler F) → Handler F
    unfolding fail
    with_module id missing rest app response = elim app.registry [
      | none ↦ fail 503 (note "module registry unavailable") app response
      | some r ↦ elim (get r id) [
        | none ↦ fail 503 (note missing) app response
        | some m ↦ rest r m app response
      ]
    ]
