-- ===== src/Server/DiagnosticsPage.antt =====
-- internal/server/router.go: the data of the diagnostics page. The print of a duration is a parameter.
use porcelain.Prelude.{ℕ, List, [], ◌∷◌, Option, none, some, if◌then◌else◌, is_nil}
use porcelain.Text.{Text, codes}
use porcelain.Host.{Host}
use porcelain.Registry.{
  Registry, Health, healthy, degraded, unavailable, unknown, Status, get, sorted_ids,
}
use porcelain.Dbus.{Bus}
use porcelain.Diagnostics.{Machine, ServiceSummary, Capture, capture}
use porcelain.Server.{HostModule, diagnostics_module, App}
use porcelain.Server.Badges.{StatusBadge, badge_for}
use porcelain.Server.Dashboard.{host_name, captured}

pub record DiagnosticsModuleStatus : Type 0 where
  pub id : Text
  pub name : Text
  pub health : Text
  pub detail : Text

-- The heading, the blurb, the detail and the link to the bundle are fixed and left out.
pub record DiagnosticsPageData : Type 0 where
  pub hostname : Text
  pub kernel : Text
  pub os : Text
  pub uptime : Text
  pub running_services : ℕ
  pub total_services : ℕ
  pub services : List ServiceSummary
  pub journal_tail : List Text
  pub ostree_status : Text
  pub modules : List DiagnosticsModuleStatus
  pub status_badge : Option StatusBadge

abbrev pub blank_diagnostics : DiagnosticsPageData
blank_diagnostics = record {
  hostname = [];
  kernel = [];
  os = [];
  uptime = [];
  running_services = 0;
  total_services = 0;
  services = [];
  journal_tail = [];
  ostree_status = [];
  modules = [];
  status_badge = none;
}

-- The strings of the health values; `unknown` stands for any other, and prints as nothing.
abbrev pub health_text : Health → Text
health_text healthy = codes "ok"
health_text degraded = codes "degraded"
health_text unavailable = codes "unavailable"
health_text unknown = []

-- What the pages ask of a module that may be of any type.
pub record Described (M : Type 0) : Type 0 where
  pub id : M → Text
  pub name : M → Text
  pub status : M → Status

-- The loop of `appendModuleStatuses` over the identifiers.
unfoldable pub module_statuses :
    {M : Type 0} → Described M → Registry M → List Text → List DiagnosticsModuleStatus
module_statuses modules r [] = []
module_statuses modules r (id ∷ ids) =
    let rest = module_statuses modules r ids in
    elim (get r id) [
      | none ↦ rest
      | some m ↦
          record {
            id = modules.id m;
            name = modules.name m;
            health = health_text (modules.status m).health;
            detail = (modules.status m).detail;
          }
          ∷ rest
    ]

-- `print` is the print of an uptime on a page.
unfoldable pub populate_snapshot : (ℕ → Text) → Capture → DiagnosticsPageData → DiagnosticsPageData
populate_snapshot print c page = elim c.failure [
  | some _ ↦ page
  | none ↦ record page {
    hostname = c.snapshot.hostname;
    kernel = c.snapshot.kernel;
    os = c.snapshot.os;
    uptime = print c.snapshot.uptime;
    running_services = c.snapshot.running_services;
    total_services = c.snapshot.total_services;
    services = c.snapshot.services;
    journal_tail = c.snapshot.journal_tail;
    ostree_status = c.snapshot.ostree_status;
  }
]

-- The page behind the last check, that there is a name.
unfoldable pub named_page : Machine → DiagnosticsPageData → DiagnosticsPageData
unfolding host_name
named_page machine page =
    if is_nil page.hostname then record page { hostname = host_name machine } else page

module _ {F : Type 0} (host : Host) (bus : Bus) (machine : Machine) (print : ℕ → Text) where
  -- The part of the page that the diagnostics module gives.
  unfoldable pub diagnosed :
      Described (HostModule F) → Registry (HostModule F) → App F → DiagnosticsPageData × App F
  unfolding populate_snapshot badge_for
  diagnosed modules r app = elim (get r (codes "diagnostics")) [
    | none ↦ (blank_diagnostics, app)
    | some m ↦
        let badged = record blank_diagnostics { status_badge = badge_for (modules.status m) } in
        elim m [
          | diagnostics_module dm ↦
              let c = capture host bus machine dm app.calls app.world in
              (populate_snapshot print c badged, captured host bus machine print r c)
          | _ ↦ (badged, app)
        ]
  ]

  -- The statuses are those of the registry after the capture, in which only a cache has changed.
  unfoldable pub diagnostics_page_data :
      Described (HostModule F) → App F → DiagnosticsPageData × App F
  unfolding named_page diagnosed module_statuses sorted_ids
  diagnostics_page_data modules app = elim app.registry [
    | none ↦ (blank_diagnostics, app)
    | some r ↦
        let (page, after) = diagnosed modules r app in
        let now : Registry (HostModule F) = elim after.registry [ none ↦ r | some r' ↦ r' ] in
        (
          named_page machine
              (record page { modules = module_statuses modules now (sorted_ids now) }),
          after,
        )
  ]
