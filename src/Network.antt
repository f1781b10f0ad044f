-- ===== src/Network.antt =====
-- internal/modules/network and internal/modules/firewall: two modules of the same shape, each with
-- the client of one service. In Go they are two types; here a module is a mode, a note and a client.
use porcelain.Prelude.{Bool, List, [], Option, none, some, if◌then◌else◌, Result, ok, err, is_nil}
use porcelain.Text.{Text, codes}
use porcelain.Registry.{healthy, degraded, unavailable, Status}
use porcelain.Dbus.{Bus, Calls, BusError, fixed, Client, Platform, ConnectionConfig, dial}
use porcelain.Dbus.NetworkManager
use porcelain.Dbus.Firewalld
use porcelain.Dbus.Firewalld.{ZoneSummary, no_summary}

-- The string of the service, or "fake"; `other_mode` stands for any other.
pub data Mode : Type 0 where
  service_mode fake_mode other_mode : Mode

-- The module `network.Module` or `firewall.Module`.
pub record Module : Type 0 where
  pub client : Option Client
  pub mode : Mode
  pub note : Text

-- `NewFromConnection`; the connection manager may be nil.
unfoldable pub new_from_connection : Platform → Option ConnectionConfig → Module
new_from_connection os none = record {
  client = none;
  mode = fake_mode;
  note = codes "no connection manager";
}
new_from_connection os (some cfg) = elim (dial os cfg) [
  | err e ↦ record { client = none; mode = fake_mode; note = e }
  | ok client ↦ record { client = some client; mode = service_mode; note = [] }
]

-- `Status`, with the text of the service that is reachable.
unfoldable pub status : Text → Module → Status
status reachable m = elim m.mode [
  | service_mode ↦ record { health = healthy; detail = reachable }
  | fake_mode ↦ record {
    health = degraded;
    detail = if is_nil m.note then codes "developer fake (no D-Bus)" else m.note;
  }
  | other_mode ↦ record { health = unavailable; detail = [] }
]

unfoldable pub network_status : Module → Status
unfolding status
network_status m = status (codes "NetworkManager reachable") m

unfoldable pub firewall_status : Module → Status
unfolding status
firewall_status m = status (codes "firewalld reachable") m

-- The client of a module that may use it.
unfoldable pub usable_client : Module → Option Client
usable_client m = elim m.mode [ service_mode ↦ m.client | _ ↦ none ]

unfoldable pub devices : Bus → Module → Calls → Result BusError (List NetworkManager.Device) × Calls
unfolding usable_client
devices bus m calls = elim (usable_client m) [
  | none ↦ (err (fixed "networkmanager client unavailable"), calls)
  | some client ↦ NetworkManager.list_devices bus client calls
]

unfoldable pub set_enabled : Bus → Module → Bool → Calls → Result BusError (Unit {0}) × Calls
unfolding usable_client
set_enabled bus m enabled calls = elim (usable_client m) [
  | none ↦ (err (fixed "networkmanager client unavailable"), calls)
  | some client ↦ NetworkManager.set_networking_enabled bus client enabled calls
]

unfoldable pub summary : Bus → Module → Calls → (ZoneSummary × Option BusError) × Calls
unfolding usable_client
summary bus m calls = elim (usable_client m) [
  | none ↦ ((no_summary, some (fixed "firewalld client unavailable")), calls)
  | some client ↦ Firewalld.summary bus client calls
]

unfoldable pub set_service :
    Bus → Module → Text → Text → Bool → Calls → Result BusError (Unit {0}) × Calls
unfolding usable_client
set_service bus m zone service enabled calls = elim (usable_client m) [
  | none ↦ (err (fixed "firewalld client unavailable"), calls)
  | some client ↦ Firewalld.set_service_in_zone bus client zone service enabled calls
]
