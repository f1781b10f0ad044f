-- ===== src/Dbus/Systemd.antt =====
-- internal/dbus/systemd: the units of systemd, and the actions on a unit.
use porcelain.Prelude.{
  ℕ, String, List, [], ◌∷◌, ◌++◌, Option, none, some, if◌then◌else◌, Result, ok, err, is_nil,
}
use porcelain.Text.{Text, codes, ◌==◌, trim_space, to_lower}
use porcelain.Dbus.{
  Value, string_value, path_value, uint32_value, Answer, rows_body, Call, Calls, Bus, send,
  BusError, fixed, unsupported_action, failed_call, Client, completed,
}

pub record SystemdUnit : Type 0 where
  pub name : Text
  pub description : Text
  pub load_state : Text
  pub active_state : Text
  pub sub_state : Text
  pub followed : Text
  pub unit_path : Text
  pub job_id : ℕ
  pub job_type : Text
  pub job_path : Text

-- The type assertions of Go, with the zero value where they fail.
unfoldable pub as_string : Value → Text
as_string (string_value s) = s
as_string _ = []

unfoldable pub as_path : Value → Text
as_path (path_value s) = s
as_path _ = []

unfoldable pub as_uint32 : Value → ℕ
as_uint32 (uint32_value n) = n
as_uint32 _ = 0

-- A row of fewer than ten columns is skipped; further columns are not read.
unfoldable pub read_row : List Value → Option SystemdUnit
unfolding as_string as_path as_uint32
read_row (a ∷ b ∷ c ∷ d ∷ e ∷ f ∷ g ∷ h ∷ i ∷ j ∷ _) = some (record {
  name = as_string a;
  description = as_string b;
  load_state = as_string c;
  active_state = as_string d;
  sub_state = as_string e;
  followed = as_string f;
  unit_path = as_path g;
  job_id = as_uint32 h;
  job_type = as_string i;
  job_path = as_path j;
})
read_row _ = none

unfoldable pub read_rows : List (List Value) → List SystemdUnit
unfolding read_row
read_rows [] = []
read_rows (row ∷ rows) = elim (read_row row) [ none ↦ read_rows rows | some u ↦ u ∷ read_rows rows ]

-- A call of a method of the manager.
abbrev pub manager_call : String → List Value → Call
manager_call method args = record {
  service = "org.freedesktop.systemd1";
  object = codes "/org/freedesktop/systemd1";
  method = method;
  args = args;
}

-- The decoding of the answer.
unfoldable pub read_units : Bus → Result Text Answer → Result BusError (List SystemdUnit)
unfolding read_rows
read_units bus (err e) = err (failed_call (codes "systemd ListUnits") e)
read_units bus (ok (rows_body rows)) = ok (read_rows rows)
read_units bus (ok _) = err (failed_call (codes "systemd ListUnits decode") bus.mismatch)

unfoldable pub list_units : Bus → Client → Calls → Result BusError (List SystemdUnit) × Calls
unfolding send read_units
list_units bus client calls =
    if client.connected
    then (let (answer, after) =
          send bus calls (manager_call "org.freedesktop.systemd1.Manager.ListUnits" []) in
        (read_units bus answer, after))
    else (err (fixed "systemd: nil connection"), calls)

-- The method of an action in lower case.
unfoldable pub unit_method : Text → Option String
unit_method action =
    if action == codes "start"
    then some "org.freedesktop.systemd1.Manager.StartUnit"
    else if action == codes "stop"
    then some "org.freedesktop.systemd1.Manager.StopUnit"
    else if action == codes "restart"
    then some "org.freedesktop.systemd1.Manager.RestartUnit"
    else none

unfoldable pub unit_action : Bus → Client → Text → Text → Calls → Result BusError (Unit {0}) × Calls
unfolding send unit_method
unit_action bus client unit_name action calls =
    let unit = trim_space unit_name in
    let verb = to_lower (trim_space action) in
    if client.connected
    then (if is_nil unit
        then (err (fixed "systemd: unit name is required"), calls)
        else elim (unit_method verb) [
          | none ↦ (err (unsupported_action verb), calls)
          | some method ↦
              let (answer, after) =
                send bus calls
                  (manager_call method (string_value unit ∷ string_value (codes "replace") ∷ [])) in
              (completed (codes "systemd " ++ verb ++ codes " " ++ unit) answer, after)
        ])
    else (err (fixed "systemd: nil connection"), calls)
