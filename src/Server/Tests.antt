-- ===== src/Server/Tests.antt =====
-- Theorems about the handlers at concrete requests.
use porcelain.Prelude.{
  inr, String, ℕ, true, false, List, [], ◌∷◌, none, some, ok, ◌≡◌, refl, length, eqb, if◌then◌else◌,
  arith,
}
use porcelain.Text.{Text, codes, ◌==◌, trim_space, to_lower, has_prefix}
use porcelain.Host.{Host, Floats}
use porcelain.Policy.{OpaStyleAuthorizer, authorize, normal, has_group}
use porcelain.Auth.Laws.{HasBearer, claims_with}
use porcelain.Registry.{Registry, get}
use porcelain.Podman
use porcelain.Zfs
use porcelain.Zfs.Commands
use porcelain.Server.{
  Request, empty, note, Response, Fiber, HostModule, podman_module, zfs_module, App, Handler, sent,
  send_status, gated, write_input,
}
use porcelain.Server.ZfsRoutes.{delete_pool}
use porcelain.Server.Gate.{Sends, EndsWith, judged, gated_runs, delete_pool_denied}
use porcelain.Server.Middleware.{Certificate, new_peer_identity, Incoming, serve}
use porcelain.Server.Middleware.Laws.{serve_unidentified, serve_with_token}
use porcelain.Registry.{Health, healthy, degraded, Status}
use porcelain.Server.Badges.{ModuleNav, rolled_up_badge, dev_badge}
use porcelain.Server.Stream.{write_sse_event}
use porcelain.Server.Stream.Laws.{read_sse_event, read_sse_event-write_sse_event}

abbrev plain : Fiber
plain = record {
  send_string = λ body r. (none, record r { body = body });
  send_json = λ body r. (none, record r { body = body });
}

plain-Sends : Sends plain
plain-Sends = record { string_sent = λ body r. refl; json_sent = λ body r. refl }

abbrev quiet : Host
quiet = record { run = λ w c. record { output = []; failure = none }; now = λ w. length w }

abbrev toy_floats : Floats
toy_floats = record {
  Float = ℕ;
  zero_float = 0;
  is_positive = λ n. if eqb n 0 then false else true;
  at_least = λ a b. eqb a b;
  parse_float = λ s. none;
  fixed_two = λ n. [];
  fixed_zero = λ n. [];
}

abbrev guards : OpaStyleAuthorizer
guards = record {
  admin_group = codes "porcelain-admins";
  operator_group = codes "porcelain-operators";
  auth_enabled = true;
}

abbrev zfs : Zfs.Module ℕ
zfs = record { mode = Zfs.Mode.present; locked = false; tasks = [] }

abbrev podman : Podman.Module
podman = record { mode = Podman.Mode.podman; note = [] }

abbrev modules : Registry (HostModule ℕ)
modules = record {
  modules = (codes "zfs", zfs_module zfs) ∷ (codes "podman", podman_module podman) ∷ [];
  order = codes "podman" ∷ codes "zfs" ∷ [];
}

abbrev app : App ℕ
app = record { registry = some modules; world = []; calls = [] }

abbrev fresh : Response
fresh = record { status = 200; body = empty }

-- A request of a user with the given groups; every path parameter reads "stop".
abbrev request : List Text → Request
request groups = record {
  param = λ name. codes "stop";
  form = λ name. [];
  query = λ name. [];
  devices = [];
  claims = some (record { subject = codes "eve"; groups = groups; token = codes "t" });
  peer = none;
}

abbrev idle_handler : Handler ℕ
idle_handler a r = sent a (none, r)

denied :
    (action resource : Text)
    → authorize guards (write_input (request []) (codes "zfs.pool.destroy") (codes "stop"))
      ≡ ok (record { allowed = false; reason = "missing required group" })
unfolding authorize normal has_group trim_space to_lower has_prefix ◌==◌
denied action resource = refl

gated_runs_example :
    gated plain guards (request []) (codes "zfs.pool.destroy") (codes "stop") idle_handler app fresh
    ≡ idle_handler app (
        judged
          (authorize guards (write_input (request []) (codes "zfs.pool.destroy") (codes "stop")))
          fresh)
gated_runs_example =
    gated_runs plain guards (request []) (codes "zfs.pool.destroy") (codes "stop") fresh
      idle_handler app plain-Sends

delete_pool_denied_example :
    EndsWith plain quiet guards
      (delete_pool plain quiet guards toy_floats (request []) app fresh)
      (Commands.zpool (codes "destroy" ∷ trim_space (codes "stop") ∷ []) ∷ [])
unfolding trim_space get ◌==◌
delete_pool_denied_example =
    delete_pool_denied plain quiet guards toy_floats (request []) app fresh zfs plain-Sends
      (modules, refl, refl) refl refl (cc) (denied [] [])

abbrev certificate : Certificate
certificate = record {
  digest = codes "00ff";
  subject_common_name = codes " laptop ";
  subject_organization = [];
  dns_names = [];
  email_addresses = [];
  serial = codes "7";
  issuer_common_name = codes "ca";
}

abbrev incoming : List Certificate → Text → Incoming
incoming certificates authorization = record {
  peer_certificates = certificates;
  headers = record {
    authorization = authorization;
    porcelain_subject = codes "eve";
    porcelain_groups = [];
  };
  request = request [];
}

-- A handler that deletes a pool.
abbrev next : Request → Handler ℕ
next req = delete_pool plain quiet guards toy_floats req

no_bearer : ¬ HasBearer (incoming (certificate ∷ []) (codes "Basic x")).headers
unfolding trim_space
no_bearer (r, e) = ground arith

serve_unidentified_example :
    (text : String) × (serve plain true next
        (incoming (certificate ∷ []) (codes "Basic x"))
        app
        fresh
      ≡ sent app (send_status plain 401 (note text) fresh))
serve_unidentified_example =
    serve_unidentified plain next (incoming (certificate ∷ []) (codes "Basic x")) app fresh
      (inr no_bearer)

serve_with_token_example :
    serve plain true next (incoming (certificate ∷ []) (codes "Bearer t")) app fresh
    ≡ next
        (record (request []) {
          claims = some (claims_with (incoming [] (codes "Bearer t")).headers (codes "t"));
          peer = some (new_peer_identity certificate);
        })
        app
        fresh
unfolding trim_space
serve_with_token_example =
    serve_with_token plain next (incoming (certificate ∷ []) (codes "Bearer t")) app fresh
      certificate [] (codes "t") refl refl

-- A module's health in place of a module.
abbrev told : Health → Status
told h = record { health = h; detail = [] }

abbrev entry : Text → ModuleNav
entry id = record { id = id; status_badge = none }

abbrev health_of : Registry Health
health_of = record {
  modules = (codes "zfs", degraded) ∷ (codes "podman", healthy) ∷ [];
  order = codes "podman" ∷ codes "zfs" ∷ [];
}

abbrev storage_children : List ModuleNav
storage_children = entry (codes "zfs") ∷ entry (codes "podman") ∷ []

read_sse_event-write_sse_event_example :
    read_sse_event (write_sse_event (codes "tasks") (codes "<p>\n</p>"))
    ≡ some (codes "tasks", codes "<p>\n</p>")
read_sse_event-write_sse_event_example =
    read_sse_event-write_sse_event (codes "tasks") (codes "<p>\n</p>") (cc) (ground arith)
      (ground arith) (ground arith)

rolls_up_worst : rolled_up_badge told health_of storage_children ≡ some dev_badge
unfolding rolled_up_badge get ◌==◌
rolls_up_worst = refl
