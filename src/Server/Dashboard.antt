-- ===== src/Server/Dashboard.antt =====
-- internal/server/router.go: the data of the dashboard and of the storage page, and internal/viewdata
-- for the stub of the dashboard. The print of a duration and of the clock are parameters; icons are
-- left out.
use porcelain.Prelude.{
  ℕ, Bool, true, false, List, [], ◌∷◌, Option, none, some, if◌then◌else◌, ltb, take, is_nil, ◌*◌,
}
use porcelain.Text.{Text, codes}
use porcelain.Host.{Host}
use porcelain.Registry.{Registry, get, put}
use porcelain.Dbus.{Bus}
use porcelain.Storage
use porcelain.Storage.{StorageData, no_data}
use porcelain.Diagnostics.{Machine, ServiceSummary, Capture, capture}
use porcelain.Server.{HostModule, storage_module, diagnostics_module, App}

pub record Stat : Type 0 where
  pub label : Text
  pub value : Text
  -- The text of the change, with whether it is positive.
  pub change : Option (Text × Bool)
  -- What is used, of the total.
  pub progress : Option (ℕ × ℕ)

pub record LogLine : Type 0 where
  pub timestamp : Text
  pub level : Text
  pub message : Text

pub record QuickAction : Type 0 where
  pub label : Text
  pub icon : Text
  pub endpoint : Text
  pub confirm : Text
  pub success_message : Text

pub record Resource : Type 0 where
  pub name : Text
  pub value : Text
  pub percentage : ℕ
  pub color : Text

pub record Sensor : Type 0 where
  pub name : Text
  pub value : Text
  pub measure : Text
  pub critical : Bool

pub record DashboardData : Type 0 where
  pub hostname : Text
  pub uptime : Text
  pub stats : List Stat
  pub services : List ServiceSummary
  pub logs : List LogLine
  pub quick_actions : List QuickAction
  pub resources : List Resource
  pub sensors : List Sensor

abbrev gibibyte : ℕ
gibibyte = 1024 * 1024 * 1024

-- `viewdata.Dashboard`, at the time of day `now`.
unfoldable pub dashboard : Text → Text → DashboardData
dashboard now hostname = record {
  hostname = hostname;
  uptime = codes "uptime stub";
  stats =
      record { label = codes "CPU"; value = codes "12%"; change = none; progress = some (12, 100) }
      ∷ record {
        label = codes "Memory";
        value = codes "3.4 GiB";
        change = none;
        progress = some (3 * gibibyte, 16 * gibibyte);
      }
      ∷ record {
        label = codes "Containers";
        value = codes "0 running";
        change = some (codes "scaffold", true);
        progress = none;
      }
      ∷ record {
        label = codes "Pools";
        value = codes "0 healthy";
        change = some (codes "scaffold", true);
        progress = none;
      }
      ∷ [];
  services =
      record {
        name = codes "porcelain.service";
        description = codes "Porcelain control plane";
        active = true;
        status = codes "active";
      }
      ∷ [];
  logs =
      record {
        timestamp = now;
        level = codes "INF";
        message = codes "porcelain bootstrapped (scaffold mode)";
      }
      ∷ [];
  quick_actions =
      record {
        label = codes "Reboot";
        icon = codes "↻";
        endpoint = codes "/api/host/reboot";
        confirm = codes "Reboot host?";
        success_message = codes "Reboot scheduled";
      }
      ∷ record {
        label = codes "Update";
        icon = codes "⬇";
        endpoint = codes "/api/host/update";
        confirm = codes "Pull updates?";
        success_message = codes "Update started";
      }
      ∷ [];
  resources =
      record {
        name = codes "Disk";
        value = codes "—";
        percentage = 0;
        color = codes "bg-accent-cyan";
      }
      ∷ record {
        name = codes "Network";
        value = codes "—";
        percentage = 0;
        color = codes "bg-accent-emerald";
      }
      ∷ [];
  sensors =
      record { name = codes "Package"; value = codes "—"; measure = codes "°C"; critical = false }
      ∷ [];
}

-- The loop of `dashboardData` over the services, which stops once there are eight.
abbrev pub shown_services : List ServiceSummary → List ServiceSummary → List ServiceSummary
shown_services stub [] = stub
shown_services stub (s ∷ ss) = take 8 (s ∷ ss)

-- The host's name, or "porcelain".
unfoldable pub host_name : Machine → Text
host_name machine = if is_nil machine.hostname then codes "porcelain" else machine.hostname

-- The dashboard after a capture.
unfoldable pub captured_dashboard : (ℕ → Text) → DashboardData → Capture → DashboardData
captured_dashboard print stub c = elim c.failure [
  | some _ ↦ stub
  | none ↦ record stub {
    hostname = c.snapshot.hostname;
    uptime = if ltb 0 c.snapshot.uptime then print c.snapshot.uptime else stub.uptime;
    services = shown_services stub.services c.snapshot.services;
  }
]

module _ {F : Type 0} (host : Host) (bus : Bus) (machine : Machine) (print : ℕ → Text) where
  -- The app after a capture: the module's cache, the calls and the commands.
  abbrev pub captured : Registry (HostModule F) → Capture → App F
  captured r c = record {
    registry = some (put (codes "diagnostics") (diagnostics_module c.after) r);
    world = c.world;
    calls = c.calls;
  }

  unfoldable pub dashboard_data : Text → App F → DashboardData × App F
  unfolding dashboard captured_dashboard host_name
  dashboard_data now app =
      let stub = dashboard now (host_name machine) in
      elim app.registry [
        | none ↦ (stub, app)
        | some r ↦ elim (get r (codes "diagnostics")) [
          | none ↦ (stub, app)
          | some m ↦ elim m [
            | diagnostics_module dm ↦
                let c = capture host bus machine dm app.calls app.world in
                (captured_dashboard print stub c, captured r c)
            | _ ↦ (stub, app)
          ]
        ]
      ]

  -- The page of the storage module; `sample` is the data of its fake source.
  unfoldable pub storage_data : StorageData → App F → StorageData × App F
  storage_data sample app = elim app.registry [
    | none ↦ (no_data, app)
    | some r ↦ elim (get r (codes "storage")) [
      | none ↦ (no_data, app)
      | some m ↦ elim m [
        | storage_module sm ↦
            let seen = Storage.snapshot sample bus sm app.calls in
            (
              seen.data_shown,
              record app {
                registry = some (put (codes "storage") (storage_module seen.after) r);
                calls = seen.calls;
              },
            )
        | _ ↦ (no_data, app)
      ]
    ]
  ]
