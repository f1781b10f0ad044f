-- ===== src/Sensors.antt =====
-- internal/modules/sensors/sensors.go: thresholds, the history of readings, and the saved state.
-- The mutex makes each operation one step. JSON and the file system are a parameter, `StateFile`; the
-- field `saved` is what a read of the state file gives.
pub mod Readings
pub mod Laws
mod Tests
use porcelain.Prelude.{
  ℕ, Bool, true, false, ◌/◌, ◌*◌, List, [], ◌∷◌, ◌++◌, Option, none, some, if◌then◌else◌, Result,
  ok, err, eqb, keep_last, map,
}
use porcelain.Text.{Text, codes, ◌==◌, trim_space, trim_right}
use porcelain.Text.Dict.{Dict, find, assign, erase}
use porcelain.Host.{Floats}

-- The modes that `New` gives are the first three; `other` stands for any other string.
pub data Mode : Type 0 where
  sensors degraded fake other : Mode

-- A time is a count of nanoseconds.
pub record HistoryPoint (F : Type 0) : Type 0 where
  pub at_time : ℕ
  pub value : F

pub record PersistedState (F : Type 0) : Type 0 where
  pub history : Dict (List (HistoryPoint F))
  pub thresholds : Dict F

-- What is decoded: a map that the JSON does not have is nil.
pub record StoredState (F : Type 0) : Type 0 where
  pub history : Option (Dict (List (HistoryPoint F)))
  pub thresholds : Option (Dict F)

-- `json.Marshal` and `json.Unmarshal` of a state, in which `at_time` counts seconds; whether there is
-- a directory for the file of a path after `MkdirAll`; and what a read of the file gives after
-- `WriteFile` of a text, if a read gave the third argument before. A failed write may leave anything.
pub record StateFile (F : Type 0) : Type 0 where
  pub encode : PersistedState F → Option Text
  pub decode : Text → Option (StoredState F)
  pub make_directory : Text → Bool
  pub write_file : Text → Text → Option Text → Option Text

pub record Module (F : Type 0) : Type 0 where
  pub mode : Mode
  pub note : Text
  pub path : Text
  pub history : Dict (List (HistoryPoint F))
  pub thresholds : Dict F
  pub saved : Option Text

pub data SensorsError : Type 0 where
  names_required : SensorsError
  invalid_threshold : Text → SensorsError

pub record SensorReading : Type 0 where
  pub name : Text
  pub value : Text
  pub unit : Text
  pub critical : Bool
  pub threshold : Text
  pub high : Text

pub record SensorChip : Type 0 where
  pub name : Text
  pub readings : List SensorReading

abbrev pub history_key : Text → Text → Text
history_key chip_name reading_name = chip_name ++ codes "::" ++ reading_name

abbrev pub max_points : ℕ
max_points = 240

abbrev pub second : ℕ
second = 1000000000

-- The series under a key; a missing key of a map of slices reads as the empty slice.
unfoldable pub series_of :
    {F : Type 0} → Text → Dict (List (HistoryPoint F)) → List (HistoryPoint F)
series_of key history = elim (find key history) [ none ↦ [] | some series ↦ series ]

module _ {F : Type 0} where
  -- `At.Unix()` and `time.Unix`.
  abbrev pub to_unix : HistoryPoint F → HistoryPoint F
  to_unix p = record p { at_time = p.at_time / second }

  abbrev pub from_unix : HistoryPoint F → HistoryPoint F
  from_unix p = record p { at_time = p.at_time * second }

  unfoldable pub map_values :
      (List (HistoryPoint F) → List (HistoryPoint F))
      → Dict (List (HistoryPoint F))
      → Dict (List (HistoryPoint F))
  map_values f [] = []
  map_values f ((k, series) ∷ d) = (k, f series) ∷ map_values f d

module _ {F : Type 0} (file : StateFile F) where
  unfoldable pub save_state_locked : Module F → Module F
  unfolding map_values
  save_state_locked m =
      let state : PersistedState F = record {
        history = map_values (map to_unix) m.history;
        thresholds = m.thresholds;
      } in
      if trim_space m.path == [] then m else elim (file.encode state) [
        | none ↦ m
        | some raw ↦
            if file.make_directory m.path
            then record m { saved = file.write_file m.path raw m.saved }
            else m
      ]

  -- A map that was decoded, or else the one before.
  abbrev or_before : {A : Type 0} → Option A → A → A
  or_before none old = old
  or_before (some new) old = new

  -- The history that was decoded, with its times in nanoseconds.
  unfoldable pub restored :
      Option (Dict (List (HistoryPoint F)))
      → Dict (List (HistoryPoint F))
      → Dict (List (HistoryPoint F))
  unfolding map_values
  restored none old = old
  restored (some history) old = map_values (map from_unix) history

  unfoldable pub load_state : Module F → Module F
  unfolding restored
  load_state m = if trim_space m.path == [] then m else elim m.saved [
    | none ↦ m
    | some raw ↦ elim (file.decode raw) [
      | none ↦ m
      | some state ↦ record m {
        history = restored state.history m.history;
        thresholds = or_before state.thresholds m.thresholds;
      }
    ]
  ]

module _ (fl : Floats) where
  open fl use {Float, at_least, parse_float, fixed_two}

  unfoldable pub format_value : Float → Text
  unfolding trim_right
  format_value v = trim_right (λ c. eqb c b'.') (trim_right (λ c. eqb c b'0') (fixed_two v))

  -- `History`, with times as numbers; a limit of 0 stands for every limit that is not positive.
  unfoldable pub recent_history : Text → Text → ℕ → Module Float → List (HistoryPoint Float)
  unfolding series_of
  recent_history chip_name reading_name limit m =
      keep_last (if eqb limit 0 then 30 else limit)
        (series_of (history_key chip_name reading_name) m.history)

  -- What `applyThresholdsAndHistory` does with the threshold of a reading of value `parsed`.
  unfoldable pub judge : Option Float → Float → SensorReading → SensorReading
  unfolding format_value
  judge none parsed r = r
  judge (some thr) parsed r = record r {
    threshold = format_value thr;
    critical = at_least parsed thr;
  }

  unfoldable pub extend_series :
      Text
      → HistoryPoint Float
      → Dict (List (HistoryPoint Float))
      → Dict (List (HistoryPoint Float))
  unfolding series_of
  extend_series key p history =
      assign key (keep_last max_points (series_of key history ++ p ∷ [])) history

  -- One round of the inner loop.
  unfoldable pub apply_reading :
      ℕ → Text → SensorReading → Module Float → SensorReading × Module Float
  unfolding judge extend_series
  apply_reading now chip_name r m = elim (parse_float r.value) [
    | none ↦ (r, m)
    | some parsed ↦
        let key = history_key chip_name r.name in
        (
          judge (find key m.thresholds) parsed r,
          record m {
            history = extend_series key (record { at_time = now; value = parsed }) m.history;
          },
        )
  ]

  unfoldable pub apply_readings :
      ℕ → Text → List SensorReading → Module Float → List SensorReading × Module Float
  unfolding apply_reading
  apply_readings now chip_name [] m = ([], m)
  apply_readings now chip_name (r ∷ rs) m =
      let first = apply_reading now chip_name r m in
      let rest = apply_readings now chip_name rs first.1 in (first.0 ∷ rest.0, rest.1)

  unfoldable pub apply_chips : ℕ → List SensorChip → Module Float → List SensorChip × Module Float
  unfolding apply_readings
  apply_chips now [] m = ([], m)
  apply_chips now (chip ∷ chips) m =
      let first = apply_readings now chip.name chip.readings m in
      let rest = apply_chips now chips first.1 in
      (record chip { readings = first.0 } ∷ rest.0, rest.1)

module _ (fl : Floats) (file : StateFile fl.Float) where
  open fl use {Float, parse_float}

  unfoldable pub set_threshold :
      Text → Text → Text → Module Float → Result SensorsError (Module Float)
  unfolding save_state_locked
  set_threshold chip_name reading_name value m =
      let chip = trim_space chip_name in
      let reading = trim_space reading_name in
      if chip == []
      then err names_required
      else if reading == []
      then err names_required
      else elim (parse_float (trim_space value)) [
        | none ↦ err (invalid_threshold value)
        | some v ↦ ok (
            save_state_locked file
              (record m { thresholds = assign (history_key chip reading) v m.thresholds }))
      ]

  unfoldable pub clear_threshold : Text → Text → Module Float → Module Float
  unfolding save_state_locked
  clear_threshold chip_name reading_name m =
      save_state_locked file
        (record m { thresholds = erase (history_key chip_name reading_name) m.thresholds })

  -- `applyThresholdsAndHistory` at the time `now`.
  unfoldable pub apply_thresholds_and_history :
      ℕ → List SensorChip → Module Float → List SensorChip × Module Float
  unfolding apply_chips save_state_locked
  apply_thresholds_and_history now chips m =
      let applied = apply_chips fl now chips m in (applied.0, save_state_locked file applied.1)
