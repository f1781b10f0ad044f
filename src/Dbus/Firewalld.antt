-- ===== src/Dbus/Firewalld.antt =====
-- internal/dbus/firewalld: the zones of the firewall with their services and interfaces, the reload,
-- and the switch of a service in a zone. A Go map is an association list, the newest entry first.
use porcelain.Prelude.{
  String, Bool, true, false, List, [], ◌∷◌, ◌++◌, Option, none, some, if◌then◌else◌, Result, ok,
  err,
}
use porcelain.Text.{Text, codes}
use porcelain.Dbus.{
  Value, string_value, int32_value, Answer, value_body, strings_body, Call, Calls, Bus, send,
  BusError, fixed, failed_call, from_library, Client, completed,
}

pub record ZoneSummary : Type 0 where
  pub default_zone : Text
  pub zones : List Text
  pub services_by_zone : List (Text × List Text)
  pub interfaces_by_zone : List (Text × List Text)

abbrev pub no_summary : ZoneSummary
no_summary = record {
  default_zone = [];
  zones = [];
  services_by_zone = [];
  interfaces_by_zone = [];
}

abbrev pub zone_call : String → List Value → Call
zone_call method args = record {
  service = "org.fedoraproject.FirewallD1";
  object = codes "/org/fedoraproject/FirewallD1";
  method = method;
  args = args;
}

-- What is written under a zone if the call and the decoding go well.
unfoldable pub filed : Text → Result Text Answer → List (Text × List Text) → List (Text × List Text)
filed zone (ok (strings_body names)) entries = (zone, names) ∷ entries
filed zone _ entries = entries

-- One round of the loop over the zones.
unfoldable pub read_zone : Bus → Text → ZoneSummary → Calls → ZoneSummary × Calls
unfolding send filed
read_zone bus zone out calls =
    let (services, calls1) =
      send bus calls
        (zone_call "org.fedoraproject.FirewallD1.zone.getServices" (string_value zone ∷ [])) in
    let (interfaces, calls2) =
      send bus calls1
        (zone_call "org.fedoraproject.FirewallD1.zone.getInterfaces" (string_value zone ∷ [])) in
    (
      record out {
        services_by_zone = filed zone services out.services_by_zone;
        interfaces_by_zone = filed zone interfaces out.interfaces_by_zone;
      },
      calls2,
    )

unfoldable pub read_zones : Bus → List Text → ZoneSummary → Calls → ZoneSummary × Calls
unfolding read_zone
read_zones bus [] out calls = (out, calls)
read_zones bus (zone ∷ zones) out calls =
    let (next, after) = read_zone bus zone out calls in read_zones bus zones next after

-- The summary behind the answer that lists the zones.
unfoldable pub with_zones :
    Bus → ZoneSummary → Result Text Answer → Calls → (ZoneSummary × Option BusError) × Calls
unfolding read_zones
with_zones bus out (err e) calls = ((out, some (failed_call (codes "firewalld getZones") e)), calls)
with_zones bus out (ok (strings_body zones)) calls =
    let (all, after) = read_zones bus zones (record out { zones = zones }) calls in
    ((all, none), after)
with_zones bus out (ok _) calls = ((out, some (from_library bus.mismatch)), calls)

-- The summary behind the answer with the default zone.
unfoldable pub with_default :
    Bus → Result Text Answer → Calls → (ZoneSummary × Option BusError) × Calls
unfolding with_zones send
with_default bus (err e) calls =
    ((no_summary, some (failed_call (codes "firewalld getDefaultZone") e)), calls)
with_default bus (ok (value_body (string_value zone))) calls =
    let (zones, after) =
      send bus calls (zone_call "org.fedoraproject.FirewallD1.zone.getZones" []) in
    with_zones bus (record no_summary { default_zone = zone }) zones after
with_default bus (ok _) calls = ((no_summary, some (from_library bus.mismatch)), calls)

-- The summary as far as it was read, and the error.
unfoldable pub summary : Bus → Client → Calls → (ZoneSummary × Option BusError) × Calls
unfolding with_default send
summary bus client calls =
    if client.connected
    then (let (answer, after) =
          send bus calls (zone_call "org.fedoraproject.FirewallD1.zone.getDefaultZone" []) in
        with_default bus answer after)
    else ((no_summary, some (fixed "firewalld: nil connection")), calls)

unfoldable pub reload : Bus → Client → Calls → Result BusError (Unit {0}) × Calls
unfolding send
reload bus client calls =
    if client.connected
    then (let (answer, after) =
          send bus calls (zone_call "org.fedoraproject.FirewallD1.zone.reload" []) in
        (completed (codes "firewalld reload") answer, after))
    else (err (fixed "firewalld: nil connection"), calls)

abbrev pub service_method : Bool → String
service_method true = "org.fedoraproject.FirewallD1.zone.addService"
service_method false = "org.fedoraproject.FirewallD1.zone.removeService"

unfoldable pub set_service_in_zone :
    Bus → Client → Text → Text → Bool → Calls → Result BusError (Unit {0}) × Calls
unfolding send
set_service_in_zone bus client zone service enabled calls =
    if client.connected
    then (let (answer, after) = send bus calls (
          zone_call (service_method enabled)
            (string_value zone ∷ string_value service ∷ int32_value 0 ∷ [])) in
        (
          completed
              (codes "firewalld "
                ++ codes (service_method enabled)
                ++ codes " service="
                ++ service
                ++ codes " zone="
                ++ zone)
              answer,
          after,
        ))
    else (err (fixed "firewalld: nil connection"), calls)
