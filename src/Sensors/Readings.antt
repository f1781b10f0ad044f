-- ===== src/Sensors/Readings.antt =====
-- internal/modules/sensors/sensors.go: from the output of `sensors -j` to chips and readings, and
-- the status of the module. The JSON decoder is a parameter: it gives nested maps, whose entries
-- are in the order in which Go happens to iterate over them.
use porcelain.Prelude.{
  ℕ, Bool, false, ◌||◌, List, [], ◌∷◌, ◌++◌, ◌+◌, Option, none, some, if◌then◌else◌, Result, ok,
  err, length,
}
use porcelain.Text.{Text, codes, ◌==◌, to_lower, contains, has_suffix}
use porcelain.Text.Decimal.{decimal}
use porcelain.Text.Dict.{Dict, find}
use porcelain.Text.Sort.{sort_texts}
use porcelain.Host.{Host, World, Floats, command, exec}
use porcelain.Registry.{Status, healthy, unavailable}
use porcelain.Sensors.{
  StateFile, Module, sensors, degraded, fake, other, SensorReading, SensorChip, format_value,
  apply_thresholds_and_history,
}

unfoldable pub keys : {V : Type 0} → Dict V → List Text
keys [] = []
keys ((k, _) ∷ d) = k ∷ keys d

unfoldable pub infer_unit : Text → Text
infer_unit name =
    let ln = to_lower name in
    if contains ln (codes "temp")
    then codes "degC"
    else if contains ln (codes "fan")
    then codes "RPM"
    else if contains ln (codes "in") || contains ln (codes "volt")
    then codes "V"
    else if contains ln (codes "power")
    then codes "W"
    else if contains ln (codes "curr")
    then codes "A"
    else []

-- The first value whose key ends in the suffix.
unfoldable pub value_by_suffix : {F : Type 0} → Dict F → Text → Option F
value_by_suffix [] suffix = none
value_by_suffix ((k, v) ∷ vals) suffix =
    let rest = value_by_suffix vals suffix in if has_suffix k suffix then some v else rest

unfoldable pub first_value_by_suffix : {F : Type 0} → Dict F → List Text → Option F
unfolding value_by_suffix
first_value_by_suffix vals [] = none
first_value_by_suffix vals (suffix ∷ suffixes) =
    let rest = first_value_by_suffix vals suffixes in
    elim (value_by_suffix vals suffix) [ none ↦ rest | some v ↦ some v ]

unfoldable pub count_readings : List SensorChip → ℕ
count_readings [] = 0
count_readings (c ∷ chips) = length c.readings + count_readings chips

-- The note of a module, or a text in its place if it has none.
abbrev pub note_or : Text → Text → Text
note_or note fallback = if note == [] then fallback else note

-- `Status`.
unfoldable pub sensors_status : {F : Type 0} → Module F → Status
sensors_status m = elim m.mode [
  | sensors ↦ record { health = healthy; detail = codes "lm-sensors available" }
  | degraded ↦ record {
    health = porcelain.Registry.degraded;
    detail = note_or m.note (codes "lm-sensors partially available");
  }
  | fake ↦ record {
    health = porcelain.Registry.degraded;
    detail = note_or m.note (codes "lm-sensors not installed");
  }
  | other ↦ record { health = unavailable; detail = [] }
]

module _ (fl : Floats) where
  open fl use {Float, at_least}

  unfoldable pub value_or_empty : Option Float → Text
  unfolding format_value
  value_or_empty none = []
  value_or_empty (some v) = format_value fl v

  -- `crit != nil && *input >= *crit`.
  unfoldable pub is_critical : Float → Option Float → Bool
  is_critical input none = false
  is_critical input (some crit) = at_least input crit

  -- One feature of a chip; a feature without an input gives no reading.
  unfoldable pub read_feature : Text → Dict Float → Option SensorReading
  unfolding first_value_by_suffix infer_unit value_or_empty is_critical
  read_feature feature vals =
      let high = first_value_by_suffix vals (codes "_max" ∷ codes "_high" ∷ []) in
      let crit = first_value_by_suffix vals (codes "_crit" ∷ codes "_emergency" ∷ []) in
      elim (first_value_by_suffix vals (codes "_input" ∷ [])) [
        | none ↦ none
        | some input ↦ some (record {
          name = feature;
          value = format_value fl input;
          unit = infer_unit feature;
          critical = is_critical input crit;
          threshold = value_or_empty crit;
          high = value_or_empty high;
        })
      ]

  -- The loop over the sorted names of the features of a chip.
  unfoldable pub read_features : Dict (Dict Float) → List Text → List SensorReading
  unfolding read_feature find
  read_features features [] = []
  read_features features (name ∷ names) =
      let rest = read_features features names in
      elim (find name features) [
        | none ↦ rest
        | some vals ↦ elim (read_feature name vals) [ none ↦ rest | some r ↦ r ∷ rest ]
      ]

  -- The loop over the sorted names of the chips.
  unfoldable pub read_chips : Dict (Dict (Dict Float)) → List Text → List SensorChip
  unfolding read_features keys sort_texts find
  read_chips root [] = []
  read_chips root (name ∷ names) =
      let rest = read_chips root names in
      elim (find name root) [
        | none ↦ rest
        | some features ↦
            record { name = name; readings = read_features features (sort_texts (keys features)) }
            ∷ rest
      ]

  -- The two errors of `readSensorsJSON`.
  pub data ReadError : Type 0 where
    command_failed not_json : Text → ReadError

  module _ (host : Host) (decode : Text → Result Text (Dict (Dict (Dict Float)))) where
    unfoldable pub read_sensors_json : World → Result ReadError (List SensorChip) × World
    unfolding read_chips keys sort_texts exec
    read_sensors_json w =
        let answer = exec host w (command (codes "sensors") (codes "-j" ∷ [])) in
        elim answer.0.failure [
          | some e ↦ (err (command_failed e), answer.1)
          | none ↦ elim (decode answer.0.output) [
            | err e ↦ (err (not_json e), answer.1)
            | ok root ↦ (ok (read_chips root (sort_texts (keys root))), answer.1)
          ]
        ]

    -- The fields of the page that a snapshot fills; heading and blurb are fixed texts.
    pub record SensorsPage : Type 0 where
      pub detail : Text
      pub chips : List SensorChip

    abbrev pub page : Text → List SensorChip → SensorsPage
    page detail chips = record { detail = detail; chips = chips }

    -- The text of the number of chips and readings.
    unfoldable pub counted : List SensorChip → Text
    unfolding count_readings
    counted chips =
        decimal (length chips)
        ++ codes " chips, "
        ++ decimal (count_readings chips)
        ++ codes " readings"

    -- What `Snapshot` does with the result of `readSensorsJSON`, at the time `now`.
    unfoldable pub take_in :
        StateFile Float
        → ℕ
        → Result ReadError (List SensorChip)
        → Module Float
        → Option ReadError × SensorsPage × Module Float
    unfolding apply_thresholds_and_history counted
    take_in file now (err e) m = (some e, page [] [], m)
    take_in file now (ok chips) m =
        let applied = apply_thresholds_and_history fl file now chips m in
        (none, page (counted applied.0) applied.0, applied.1)

    -- `Snapshot`: the error, the page, the module and the world after it.
    unfoldable pub snapshot :
        StateFile Float
        → Module Float
        → World
        → (Option ReadError × SensorsPage × Module Float) × World
    unfolding take_in read_sensors_json
    snapshot file m w =
        let read = read_sensors_json w in
        elim m.mode [
          | fake ↦ ((none, page (note_or m.note (codes "lm-sensors not installed")) [], m), w)
          | degraded ↦ ((none, page m.note [], m), w)
          | sensors ↦ (take_in file (host.now read.1) read.0 m, read.1)
          | other ↦ (take_in file (host.now read.1) read.0 m, read.1)
        ]
