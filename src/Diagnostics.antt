-- ===== src/Diagnostics.antt =====
-- internal/modules/diagnostics: the overview of the host, and the actions on systemd units.
-- The host's name, platform and uptime are read from the operating system and are parameters.
pub mod Laws
mod Tests
use porcelain.Prelude.{
  ℕ, zero, suc, Bool, true, false, List, [], ◌∷◌, ◌++◌, Option, none, some, if◌then◌else◌, Result,
  ok, err, is_nil, eqb, ltb, take, length,
}
use porcelain.Text.{Text, codes, ◌==◌, trim_space, split, join, has_suffix}
use porcelain.Text.Decimal.{decimal}
use porcelain.Host.{Host, World, command, exec}
use porcelain.Registry.{healthy, degraded, unavailable, Status}
use porcelain.Dbus.{Bus, Calls, BusError, fixed, wrapped, Client, Platform, ConnectionConfig, dial}
use porcelain.Dbus.Systemd
use porcelain.Dbus.Systemd.{SystemdUnit, list_units}

-- The string "systemd" or "fake"; `other` stands for any other.
pub data Mode : Type 0 where
  systemd fake other : Mode

pub record ServiceSummary : Type 0 where
  pub name : Text
  pub description : Text
  pub active : Bool
  pub status : Text

-- The uptime is in nanoseconds.
pub record Snapshot : Type 0 where
  pub hostname : Text
  pub kernel : Text
  pub os : Text
  pub uptime : ℕ
  pub running_services : ℕ
  pub total_services : ℕ
  pub services : List ServiceSummary
  pub journal_tail : List Text
  pub ostree_status : Text

pub record Module : Type 0 where
  pub client : Option Client
  pub mode : Mode
  pub note : Text
  pub cached : Option Snapshot

-- `os.Hostname`, `runtime.GOOS`, `runtime.GOARCH` and `readUptime`.
pub record Machine : Type 0 where
  pub hostname : Text
  pub goos : Text
  pub goarch : Text
  pub uptime : ℕ

unfoldable pub new_from_connection : Platform → ConnectionConfig → Module
new_from_connection os cfg = elim (dial os cfg) [
  | err e ↦ record { client = none; mode = fake; note = e; cached = none }
  | ok client ↦ record { client = some client; mode = systemd; note = []; cached = none }
]

unfoldable pub status : Module → Status
status m = elim m.mode [
  | systemd ↦ record { health = healthy; detail = codes "systemd connected" }
  | fake ↦ record {
    health = degraded;
    detail = if is_nil m.note then codes "developer fake (no D-Bus)" else m.note;
  }
  | other ↦ record { health = unavailable; detail = [] }
]

-- The client of a module that may use it.
unfoldable pub usable_client : Module → Option Client
usable_client m = elim m.mode [ systemd ↦ m.client | _ ↦ none ]

-- The loop of `captureJournalTail`: the lines without the space around them, without empty ones.
unfoldable pub kept_lines : List Text → List Text
unfolding trim_space
kept_lines [] = []
kept_lines (line ∷ lines) =
    let rest = kept_lines lines in
    let text = trim_space line in if is_nil text then rest else text ∷ rest

-- The list, or the text that says that it is empty.
abbrev pub or_no_entries : List Text → List Text
or_no_entries [] = codes "no journal entries" ∷ []
or_no_entries (line ∷ lines) = line ∷ lines

unfoldable pub capture_journal_tail : Host → ℕ → World → List Text × World
unfolding kept_lines
capture_journal_tail host lines w =
    let asked = if eqb lines 0 then 20 else lines in
    let (out, after) = exec host w (
      command (codes "journalctl")
        (codes "-n" ∷ decimal asked ∷ codes "--no-pager" ∷ codes "-o" ∷ codes "short" ∷ [])) in
    elim out.failure [
      | some _ ↦ (codes "journalctl unavailable" ∷ [], after)
      | none ↦ (or_no_entries (kept_lines (split (trim_space out.output) b'\n')), after)
    ]

unfoldable pub capture_ostree_status : Host → World → Text × World
unfolding split join
capture_ostree_status host w =
    let (out, after) = exec host w (command (codes "rpm-ostree") (codes "status" ∷ [])) in
    let text = trim_space out.output in
    elim out.failure [
      | some _ ↦ (codes "rpm-ostree unavailable", after)
      | none ↦
          if is_nil text
          then (codes "rpm-ostree status empty", after)
          else (join (take 6 (split text b'\n')) (b'\n' ∷ []), after)
    ]

abbrev pub is_service : SystemdUnit → Bool
is_service u = has_suffix u.name (codes ".service")

-- The loop of `Capture` over the units: the running services, all services, and their summaries.
unfoldable pub count_unit : Snapshot → SystemdUnit → Snapshot
unfolding ◌==◌ has_suffix
count_unit snap u =
    let active = u.active_state == codes "active" in
    if is_service u
    then record snap {
      total_services = suc snap.total_services;
      running_services = if active then suc snap.running_services else snap.running_services;
      services =
          snap.services
          ++ record {
            name = u.name;
            description = u.description;
            active = active;
            status = u.active_state;
          }
            ∷ [];
    }
    else snap

unfoldable pub count_units : Snapshot → List SystemdUnit → Snapshot
unfolding count_unit
count_units snap [] = snap
count_units snap (u ∷ us) = count_units (count_unit snap u) us

-- The snapshot before the services are read.
unfoldable pub blank_snapshot : Machine → Snapshot
blank_snapshot machine = record {
  hostname = if is_nil machine.hostname then codes "porcelain" else machine.hostname;
  kernel = machine.goos ++ codes "/" ++ machine.goarch;
  os = machine.goos;
  uptime = machine.uptime;
  running_services = 0;
  total_services = 0;
  services = [];
  journal_tail = [];
  ostree_status = [];
}

-- The service that stands for all where there is no systemd.
abbrev pub sample_services : Snapshot → Snapshot
sample_services snap = record snap {
  services =
      record {
        name = codes "porcelain.service";
        description = codes "Porcelain control plane (developer fake)";
        active = true;
        status = codes "active";
      }
      ∷ [];
  running_services = 1;
  total_services = 1;
}

-- What `Capture` returns, the module, the calls on the bus and the commands on the host.
pub record Capture : Type 0 where
  pub snapshot : Snapshot
  pub failure : Option BusError
  pub after : Module
  pub calls : Calls
  pub world : World

-- The two commands at the end of `Capture`, and the update of the cache.
unfoldable pub finish_capture : Host → Module → Calls → World → Snapshot → Capture
unfolding capture_journal_tail capture_ostree_status
finish_capture host m calls w snap =
    let (journal, after_journal) = capture_journal_tail host 20 w in
    let (ostree, after) = capture_ostree_status host after_journal in
    let done = record snap { journal_tail = journal; ostree_status = ostree } in
    record {
      snapshot = done;
      failure = none;
      after = record m { cached = some done };
      calls = calls;
      world = after;
    }

unfoldable pub capture : Host → Bus → Machine → Module → Calls → World → Capture
unfolding blank_snapshot finish_capture usable_client count_units
capture host bus machine m calls w =
    let snap = blank_snapshot machine in
    elim (usable_client m) [
      | none ↦ finish_capture host m calls w (sample_services snap)
      | some client ↦
          let (units, after) = list_units bus client calls in
          elim units [
            | err e ↦ record {
              snapshot = snap;
              failure = some (wrapped "diagnostics" e);
              after = m;
              calls = after;
              world = w;
            }
            | ok us ↦ finish_capture host m after w (count_units snap us)
          ]
    ]

unfoldable pub unit_action : Bus → Module → Text → Text → Calls → Result BusError (Unit {0}) × Calls
unfolding usable_client
unit_action bus m unit_name action calls = elim (usable_client m) [
  | none ↦ (err (fixed "diagnostics: systemd client unavailable"), calls)
  | some client ↦ Systemd.unit_action bus client unit_name action calls
]
