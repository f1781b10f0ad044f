-- ===== src/Sensors/Tests.antt =====
-- The sensors module at concrete readings.
use porcelain.Prelude.{
  ◌≤◌, ℕ, true, false, [], ◌∷◌, ◌++◌, none, some, ◌≡◌, refl, arith, length, leb, ltb, keep_last,
  map, Option, List, if◌then◌else◌, Bool-cases, inl, inr, ap, sym, some_inj,
}
use porcelain.Text.{Text, codes, trim_space, ◌==◌}
use porcelain.Text.Affix.{eq_sound}
use porcelain.Text.Dict.{Dict, find}
use porcelain.Host.{Floats}
use porcelain.Sensors.{
  sensors, Module, SensorReading, history_key, series_of, HistoryPoint, StateFile, StoredState,
  map_values, save_state_locked, load_state, recent_history, apply_reading,
  apply_thresholds_and_history,
}
use porcelain.Sensors.Laws.{
  apply_thresholds_and_history-IsBounded, apply_reading-recent_history,
  load_state-save_state_locked, Restores, whole_seconds,
}

-- Numbers in place of floats; a text stands for its length.
abbrev toy_floats : Floats
toy_floats = record {
  Float = ℕ;
  zero_float = 0;
  is_positive = λ n. ltb 0 n;
  at_least = λ a b. leb b a;
  parse_float = λ s. some (length s);
  fixed_two = λ n. codes "7.00";
  fixed_zero = λ n. codes "7";
}

-- The encoding of one point and one threshold under the same key; other states have none.
abbrev encode_one : Dict (List (HistoryPoint ℕ)) → Dict ℕ → Option Text
encode_one ((k, p ∷ []) ∷ []) ((l, v) ∷ []) =
    if k == l then some (p.at_time ∷ p.value ∷ v ∷ k) else none
encode_one _ _ = none

abbrev decode_one : Text → Option (StoredState ℕ)
decode_one (t ∷ x ∷ v ∷ k) = some (record {
  history = some ((k, record { at_time = t; value = x } ∷ []) ∷ []);
  thresholds = some ((k, v) ∷ []);
})
decode_one _ = none

abbrev state_file : StateFile ℕ
state_file = record {
  encode = λ state. encode_one state.history state.thresholds;
  decode = decode_one;
  make_directory = λ path. true;
  write_file = λ path raw old. some raw;
}

abbrev started : Module ℕ
started = record {
  mode = sensors;
  note = [];
  path = codes "/state";
  history = [];
  thresholds = [];
  saved = none;
}

abbrev hot : SensorReading
hot = record {
  name = codes "temp1";
  value = codes "1234";
  unit = codes "degC";
  critical = false;
  threshold = [];
  high = [];
}

-- The state after a reading and a threshold of 3.
abbrev guarded : Module ℕ
guarded = record {
  mode = sensors;
  note = [];
  path = codes "/state";
  history = (codes "cpu::temp1", record { at_time = 5000000007; value = 2 } ∷ []) ∷ [];
  thresholds = (codes "cpu::temp1", 3) ∷ [];
  saved = none;
}

apply_thresholds_and_history-IsBounded_example :
    length (
      series_of
        (codes "cpu::temp1")
        (apply_thresholds_and_history toy_floats state_file 9
          (record { name = codes "cpu"; readings = hot ∷ [] } ∷ [])
          started).1.history)
    ≤ 240
unfolding series_of find
apply_thresholds_and_history-IsBounded_example =
    apply_thresholds_and_history-IsBounded toy_floats state_file 9
      (record { name = codes "cpu"; readings = hot ∷ [] } ∷ []) started (λ key. omega arith)
      (codes "cpu::temp1")

apply_reading-recent_history_example :
    recent_history toy_floats
      (codes "cpu")
      (codes "temp1")
      5
      (apply_reading toy_floats 9 (codes "cpu") hot guarded).1
    ≡ keep_last 5 (
        series_of (history_key (codes "cpu") (codes "temp1")) guarded.history
        ++ record { at_time = 9; value = 4 } ∷ [])
apply_reading-recent_history_example =
    apply_reading-recent_history toy_floats state_file 9 5 (codes "cpu") hot 4 guarded refl
      (omega arith) (omega arith)

open_state :
    (history : Dict (List (HistoryPoint ℕ))) (thresholds : Dict ℕ) (raw : Text)
    → encode_one history thresholds ≡ some raw
    → (h : Dict (List (HistoryPoint ℕ))) × (t : Dict ℕ) × (decode_one raw
        ≡ some (record { history = some h; thresholds = some t }))
      × ((key : Text) → find key h ≡ find key history)
      × ((key : Text) → find key t ≡ find key thresholds)
open_state ((k, p ∷ []) ∷ []) ((l, v) ∷ []) raw e = elim (Bool-cases (k == l)) [
  | inl same ↦ (
    (k, p ∷ []) ∷ [],
    (k, v) ∷ [],
    ap decode_one (sym (some_inj (rw same at e))),
    λ key. refl,
    λ key. ap (λ name. find key ((name, v) ∷ [])) (eq_sound k l same),
  )
  | inr other ↦ absurd (cc (rw other at e))
]
open_state [] thresholds raw e = absurd (cc e)
open_state ((k, []) ∷ rest) thresholds raw e = absurd (cc e)
open_state ((k, p ∷ q ∷ ps) ∷ rest) thresholds raw e = absurd (cc e)
open_state ((k, p ∷ []) ∷ entry ∷ rest) thresholds raw e = absurd (cc e)
open_state ((k, p ∷ []) ∷ []) [] raw e = absurd (cc e)
open_state ((k, p ∷ []) ∷ []) ((l, v) ∷ entry ∷ rest) raw e = absurd (cc e)

abbrev state_file-Restores : Restores toy_floats state_file
state_file-Restores = record {
  decoded = λ state raw e. open_state state.history state.thresholds raw e;
}

load_state-save_state_locked_example :
    ((key : Text)
      → find key
          (load_state state_file
            (record started { saved = (save_state_locked state_file guarded).saved })).thresholds
        ≡ find key guarded.thresholds)
    × ((key : Text)
        → series_of key
            (load_state state_file
              (record started { saved = (save_state_locked state_file guarded).saved })).history
          ≡ map (whole_seconds toy_floats state_file) (series_of key guarded.history))
unfolding trim_space map_values ◌==◌
load_state-save_state_locked_example =
    load_state-save_state_locked toy_floats state_file guarded started
      (5 ∷ 2 ∷ 3 ∷ codes "cpu::temp1") state_file-Restores (cc) refl refl refl refl
