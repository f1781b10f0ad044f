-- ===== src/Server/Pages.antt =====
-- internal/server/router.go: what the network, firewall and storage pages show. The status badge of
-- a module comes from its `Status`, which is a parameter here.
pub mod Laws
mod Tests
use porcelain.Prelude.{
  ℕ, String, Bool, true, false, ◌&&◌, not, List, [], ◌∷◌, ◌++◌, Option, none, some, if◌then◌else◌,
  Result, ok, err, leb, eqb, length,
}
use porcelain.Text.{Text, codes, ◌==◌}
use porcelain.Text.Decimal.{decimal}
use porcelain.Text.Dict.{find}
use porcelain.Text.Sort.{sort_texts, listed}
use porcelain.Registry.{Registry, Status, get}
use porcelain.Dbus.{
  Bus, Calls, BusError, fixed, unsupported_action, failed_call, mounted_at, from_library, wrapped,
}
use porcelain.Dbus.NetworkManager.{Device}
use porcelain.Dbus.Firewalld.{ZoneSummary}
use porcelain.Storage
use porcelain.Storage.{StorageData, no_data}
use porcelain.Network
use porcelain.Server.{HostModule, storage_module, network_module, firewall_module}
use porcelain.Server.Badges.{StatusBadge, badge_for, ModuleNav}

-- `Error` of the errors of the bus; `quote` is `%q`.
unfoldable pub print_error : (Text → Text) → BusError → Text
print_error quote (fixed s) = codes s
print_error quote (unsupported_action action) = codes "systemd: unsupported action " ++ quote action
print_error quote (failed_call what e) = what ++ codes ": " ++ e
print_error quote (mounted_at device path) =
    codes "storage: refusing to format device " ++ device ++ codes " mounted at " ++ path
print_error quote (from_library e) = e
print_error quote (wrapped s e) = codes s ++ codes ": " ++ print_error quote e

unfoldable pub network_device_type_label : ℕ → Text
unfolding decimal
network_device_type_label t =
    if eqb t 1
    then codes "ethernet"
    else if eqb t 2
    then codes "wifi"
    else if eqb t 5
    then codes "bridge"
    else if eqb t 6
    then codes "tun"
    else if eqb t 8
    then codes "bond"
    else if eqb t 14
    then codes "vlan"
    else codes "type-" ++ decimal t

unfoldable pub network_device_state_label : ℕ → Text
unfolding decimal
network_device_state_label s =
    if eqb s 100
    then codes "activated"
    else if eqb s 70
    then codes "ip-config"
    else if eqb s 50
    then codes "config"
    else if eqb s 30
    then codes "disconnected"
    else if eqb s 20
    then codes "unavailable"
    else if eqb s 10
    then codes "unmanaged"
    else codes "state-" ++ decimal s

pub record NetworkDevice : Type 0 where
  pub path : Text
  pub interface : Text
  pub kind : Text
  pub state : Text
  pub mac : Text

-- The heading and the blurb of a page are fixed and left out.
pub record NetworkPageData : Type 0 where
  pub detail : Text
  pub status_badge : Option StatusBadge
  pub enabled : Bool
  pub devices : List NetworkDevice

pub record FirewallZone : Type 0 where
  pub name : Text
  pub is_default : Bool
  pub interfaces : List Text
  pub services : List Text

pub record FirewallPageData : Type 0 where
  pub detail : Text
  pub status_badge : Option StatusBadge
  pub default_zone : Text
  pub zones : List FirewallZone
  pub all_known_services : List Text

unfoldable pub shown_device : Device → NetworkDevice
unfolding network_device_type_label network_device_state_label
shown_device d = record {
  path = d.path;
  interface = d.interface;
  kind = network_device_type_label d.device_type;
  state = network_device_state_label d.state;
  mac = d.hw_address;
}

-- The loop of `networkPageData` over the devices.
unfoldable pub add_devices : NetworkPageData → List Device → NetworkPageData
unfolding shown_device
add_devices page [] = page
add_devices page (d ∷ ds) =
    add_devices
      (record page {
        devices = page.devices ++ shown_device d ∷ [];
        enabled = if leb d.state 20 then false else page.enabled;
      })
      ds

-- The page of the devices that were read.
unfoldable pub page_of_devices : NetworkPageData → List Device → NetworkPageData
unfolding add_devices decimal
page_of_devices page ds =
    add_devices
      (record page { enabled = true; detail = decimal (length ds) ++ codes " interfaces detected" })
      ds

-- `append([]string(nil), m[z]...)`, sorted.
unfoldable pub sorted_entry : Text → List (Text × List Text) → List Text
unfolding sort_texts find
sorted_entry zone entries = elim (find zone entries) [ none ↦ [] | some names ↦ sort_texts names ]

-- A Go map as a set: a name is kept once.
unfoldable pub add_known : List Text → List Text → List Text
unfolding listed
add_known [] known = known
add_known (s ∷ ss) known = add_known ss (if listed s known then known else s ∷ known)

-- The loop of `firewallPageData` over the zones: the services that are known, and the zones.
unfoldable pub known_services : ZoneSummary → List Text → List Text → List Text
unfolding add_known sorted_entry
known_services s [] known = known
known_services s (z ∷ zs) known =
    known_services s zs (add_known (sorted_entry z s.services_by_zone) known)

unfoldable pub shown_zones : ZoneSummary → List Text → List FirewallZone
unfolding sorted_entry ◌==◌
shown_zones s [] = []
shown_zones s (z ∷ zs) =
    record {
      name = z;
      is_default = z == s.default_zone;
      interfaces = sorted_entry z s.interfaces_by_zone;
      services = sorted_entry z s.services_by_zone;
    }
    ∷ shown_zones s zs

-- The page of a summary that was read.
unfoldable pub page_of_summary : FirewallPageData → ZoneSummary → FirewallPageData
unfolding shown_zones known_services sort_texts decimal
page_of_summary page s = record page {
  default_zone = s.default_zone;
  zones = shown_zones s s.zones;
  all_known_services = sort_texts (known_services s s.zones []);
  detail =
      decimal (length (shown_zones s s.zones))
      ++ codes " zones loaded (default: "
      ++ s.default_zone
      ++ codes ")";
}

-- The page of a module that has no page of its own, and its children.
pub record PlaceholderData : Type 0 where
  pub heading : Text
  pub blurb : Text
  pub detail : Text
  pub status_badge : Option StatusBadge
  pub children : List ModuleNav

module _ {F : Type 0} (status : HostModule F → Status) where
  -- The badge of a module, if there is a registry and the module is in it.
  unfoldable pub registered_badge : Option (Registry (HostModule F)) → Text → Option StatusBadge
  unfolding badge_for
  registered_badge none id = none
  registered_badge (some r) id = elim (get r id) [ none ↦ none | some m ↦ badge_for (status m) ]

  unfoldable pub placeholder_for :
      Option (Registry (HostModule F)) → Text → Text → Text → Text → PlaceholderData
  unfolding registered_badge
  placeholder_for registry id heading blurb detail = record {
    heading = heading;
    blurb = blurb;
    detail = detail;
    status_badge = registered_badge registry id;
    children = [];
  }

  unfoldable pub network_overview : Option (Registry (HostModule F)) → PlaceholderData
  unfolding registered_badge
  network_overview registry = record {
    heading = codes "Network";
    blurb = codes "Interface, firewall, and tunnel summary";
    detail = codes "Pick a sub-page below to drill into a specific networking concern.";
    status_badge = registered_badge registry (codes "network");
    children =
        record {
          id = codes "firewall";
          status_badge = registered_badge registry (codes "firewall");
        }
        ∷ record {
          id = codes "cloudflare";
          status_badge = registered_badge registry (codes "cloudflare");
        }
        ∷ [];
  }

  module _ (quote : Text → Text) (bus : Bus) where
    -- The page of a result of reading the devices.
    unfoldable pub page_of_result :
        NetworkPageData → Result BusError (List Device) × Calls → NetworkPageData × Calls
    unfolding page_of_devices print_error
    page_of_result page (err e, calls) = (record page { detail = print_error quote e }, calls)
    page_of_result page (ok ds, calls) = (page_of_devices page ds, calls)

    unfoldable pub network_page_data :
        Option (Registry (HostModule F)) → Calls → NetworkPageData × Calls
    unfolding badge_for page_of_result
    network_page_data registry calls =
        let blank : NetworkPageData = record {
          detail = codes "NetworkManager module unavailable";
          status_badge = none;
          enabled = false;
          devices = [];
        } in
        elim registry [
          | none ↦ (blank, calls)
          | some r ↦ elim (get r (codes "network")) [
            | none ↦ (blank, calls)
            | some m ↦
                let page = record blank { status_badge = badge_for (status m) } in
                elim m [
                  | network_module nm ↦ page_of_result page (Network.devices bus nm calls)
                  | _ ↦ (record page { detail = codes "invalid network module type" }, calls)
                ]
          ]
        ]

    -- The page of a result of reading the summary.
    unfoldable pub page_of_read :
        FirewallPageData → (ZoneSummary × Option BusError) × Calls → FirewallPageData × Calls
    unfolding page_of_summary print_error
    page_of_read page ((_, some e), calls) = (record page { detail = print_error quote e }, calls)
    page_of_read page ((s, none), calls) = (page_of_summary page s, calls)

    unfoldable pub firewall_page_data :
        Option (Registry (HostModule F)) → Calls → FirewallPageData × Calls
    unfolding badge_for page_of_read
    firewall_page_data registry calls =
        let blank : FirewallPageData = record {
          detail = codes "firewalld module unavailable";
          status_badge = none;
          default_zone = [];
          zones = [];
          all_known_services = [];
        } in
        elim registry [
          | none ↦ (blank, calls)
          | some r ↦ elim (get r (codes "firewall")) [
            | none ↦ (blank, calls)
            | some m ↦
                let page = record blank { status_badge = badge_for (status m) } in
                elim m [
                  | firewall_module fm ↦ page_of_read page (Network.summary bus fm calls)
                  | _ ↦ (record page { detail = codes "invalid firewall module type" }, calls)
                ]
          ]
        ]
