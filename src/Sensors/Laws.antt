-- ===== src/Sensors/Laws.antt =====
-- What the thresholds, the history and the saved state of the sensors module guarantee.
use porcelain.Prelude.{
  ℕ, suc, zero, true, false, ◌+◌, ◌-◌, ◌/◌, ◌*◌, ◌≤◌, ◌<◌, List, [], ◌∷◌, ◌++◌, none, some, ok, ◌≡◌,
  ◌≢◌, refl, arith, ◌∙◌, sym, ap, map, inl, inr, Bool-cases, Option-cases, if◌then◌else◌, length,
  drop, keep_last, length-keep_last, length-drop, subst,
}
use porcelain.Text.{Text, ◌==◌, trim_space}
use porcelain.Text.Affix.{eq_iff}
use porcelain.Text.Dict.{Dict, find, assign, erase, find-assign, find-assign_other, find-erase}
use porcelain.Host.{Floats}
use porcelain.Sensors.{
  HistoryPoint, PersistedState, StateFile, restored, Module, SensorReading, SensorChip, history_key,
  max_points, series_of, to_unix, from_unix, map_values, save_state_locked, load_state,
  format_value, set_threshold, clear_threshold, recent_history, judge, extend_series, apply_reading,
  apply_readings, apply_chips, apply_thresholds_and_history,
}

drop-nil : {A : Type 0} (n : ℕ) → drop {A = A} n [] ≡ []
drop-nil zero = refl
drop-nil (suc n) = refl

drop-drop : {A : Type 0} (n k : ℕ) (xs : List A) → drop n (drop k xs) ≡ drop (k + n) xs
drop-drop n zero xs = ap (λ j. drop j xs) (omega arith)
drop-drop n (suc k) [] = drop-nil n ∙ sym (drop-nil (suc k + n))
drop-drop n (suc k) (x ∷ xs) =
    let e : suc (k + n) ≡ suc k + n = omega arith in drop-drop n k xs ∙ ap (λ j. drop j (x ∷ xs)) e

keep_last-keep_last :
    {A : Type 0} (n k : ℕ) (xs : List A) → n ≤ k → keep_last n (keep_last k xs) ≡ keep_last n xs
keep_last-keep_last n k xs h =
    let size = length-drop (length xs - k) xs in
    let twice = drop-drop (length (drop (length xs - k) xs) - n) (length xs - k) xs in
    ground (arith, size, twice)

module _ {F : Type 0} where
  series_of-assign :
      (key other : Text) (series : List (HistoryPoint F)) (h : Dict (List (HistoryPoint F)))
      → series_of other (assign key series h) ≡ (if key == other then series else series_of other h)
  unfolding series_of
  series_of-assign key other series h = elim (Bool-cases (key == other)) [
    | inl e ↦ rw (e, sym ((eq_iff key other).0 e)) (rw (series_of, find-assign key series h) refl)
    | inr e ↦
        rw
          (
            e,
            series_of,
            find-assign_other key other series h
                (λ same. absurd (cc (e, (eq_iff key other).1 same))),
          )
          refl
  ]

  series_of-map_values :
      (f : List (HistoryPoint F) → List (HistoryPoint F)) (key : Text)
      (h : Dict (List (HistoryPoint F)))
      → f [] ≡ []
      → series_of key (map_values f h) ≡ f (series_of key h)
  unfolding series_of map_values find
  series_of-map_values f key [] e = sym e
  series_of-map_values f key ((k, series) ∷ h) e = elim (Bool-cases (k == key)) [
    | inl same ↦ rw (same, series_of) refl
    | inr other ↦ rw (other, series_of) (series_of-map_values f key h e)
  ]

same_series :
    {F : Type 0} (key : Text) (h k : Dict (List (HistoryPoint F)))
    → find key h ≡ find key k
    → series_of key h ≡ series_of key k
unfolding series_of
same_series key h k e = rw (series_of, e) refl

module _ (fl : Floats) (file : StateFile fl.Float) where
  open fl use {Float, at_least, parse_float}

  -- No series of the history is longer than the bound.
  abbrev pub IsBounded : Dict (List (HistoryPoint Float)) → Type 0
  IsBounded history = (key : Text) → length (series_of key history) ≤ max_points

  apply_reading-IsBounded :
      (now : ℕ) (chip : Text) (r : SensorReading) (m : Module Float)
      → IsBounded m.history
      → IsBounded (apply_reading fl now chip r m).1.history
  unfolding apply_reading extend_series
  apply_reading-IsBounded now chip r m b = elim (Option-cases (parse_float r.value)) [
    | inl e ↦ rw (e, apply_reading) b
    | inr (parsed, e) ↦
        rw (e, apply_reading)
          (λ key.
            let k = history_key chip r.name in
            let p : HistoryPoint Float = record { at_time = now; value = parsed } in
            let series = series_of k m.history ++ p ∷ [] in
            let bound = length-keep_last max_points series in
            let old = b key in
            rw (series_of-assign k key (keep_last max_points series) m.history) (ground arith))
  ]

  apply_readings-IsBounded :
      (now : ℕ) (chip : Text) (rs : List SensorReading) (m : Module Float)
      → IsBounded m.history
      → IsBounded (apply_readings fl now chip rs m).1.history
  unfolding apply_readings
  apply_readings-IsBounded now chip [] m b = b
  apply_readings-IsBounded now chip (r ∷ rs) m b =
      apply_readings-IsBounded now chip rs (apply_reading fl now chip r m).1
        (apply_reading-IsBounded now chip r m b)

  apply_chips-IsBounded :
      (now : ℕ) (chips : List SensorChip) (m : Module Float)
      → IsBounded m.history
      → IsBounded (apply_chips fl now chips m).1.history
  unfolding apply_chips
  apply_chips-IsBounded now [] m b = b
  apply_chips-IsBounded now (chip ∷ chips) m b =
      apply_chips-IsBounded now chips (apply_readings fl now chip.name chip.readings m).1
        (apply_readings-IsBounded now chip.name chip.readings m b)

  history-save_state_locked : (m : Module Float) → (save_state_locked file m).history ≡ m.history
  unfolding save_state_locked
  history-save_state_locked m = ground arith

  thresholds-save_state_locked :
      (m : Module Float) → (save_state_locked file m).thresholds ≡ m.thresholds
  unfolding save_state_locked
  thresholds-save_state_locked m = ground arith

  -- If no series of the history is longer than 240 points, none is after any chips and readings
  -- have been taken in.
  pub apply_thresholds_and_history-IsBounded :
      (now : ℕ) (chips : List SensorChip) (m : Module Float)
      → IsBounded m.history
      → IsBounded (apply_thresholds_and_history fl file now chips m).1.history
  unfolding apply_thresholds_and_history
  apply_thresholds_and_history-IsBounded now chips m b =
      subst IsBounded (sym (history-save_state_locked (apply_chips fl now chips m).1))
        (apply_chips-IsBounded now chips m b)

  -- A threshold that has been set judges the next reading under its trimmed names, if the
  -- reading's value is a number: it shows the threshold, and is critical exactly if its value
  -- is at least the threshold.
  pub set_threshold-apply_reading :
      (chip_name reading_name value : Text) (v parsed : Float) (now : ℕ) (r : SensorReading)
      (m m' : Module Float)
      → set_threshold fl file chip_name reading_name value m ≡ ok m'
      → parse_float (trim_space value) ≡ some v
      → r.name ≡ trim_space reading_name
      → parse_float r.value ≡ some parsed
      → (apply_reading fl now (trim_space chip_name) r m').0
        ≡ record r { threshold = format_value fl v; critical = at_least parsed v }
  unfolding set_threshold apply_reading judge
  set_threshold-apply_reading chip_name reading_name value v parsed now r m m' h given named read =
      let key = history_key (trim_space chip_name) (trim_space reading_name) in
      let stored = record m { thresholds = assign key v m.thresholds } in
      let known : m'.thresholds ≡ assign key v m.thresholds =
        ground (arith, thresholds-save_state_locked stored) in
      let found : find (history_key (trim_space chip_name) r.name) m'.thresholds ≡ some v =
        rw (named, known) (find-assign key v m.thresholds) in
      rw (read, found, apply_reading, judge) refl

  -- A threshold that has been cleared, under the names that it is stored by, leaves the next
  -- reading whose value is a number as it is.
  pub clear_threshold-apply_reading :
      (chip_name : Text) (parsed : Float) (now : ℕ) (r : SensorReading) (m : Module Float)
      → parse_float r.value ≡ some parsed
      → (apply_reading fl now chip_name r (clear_threshold fl file chip_name r.name m)).0 ≡ r
  unfolding clear_threshold apply_reading judge
  clear_threshold-apply_reading chip_name parsed now r m read =
      let key = history_key chip_name r.name in
      let kept = thresholds-save_state_locked (record m { thresholds = erase key m.thresholds }) in
      let found : find key (clear_threshold fl file chip_name r.name m).thresholds ≡ none =
        rw (clear_threshold, kept) (find-erase key m.thresholds) in
      rw (read, found, apply_reading, judge) refl

  -- The history of a reading whose value is a number, up to a limit from 1 to 240, after the
  -- reading has been taken in: the points that were there before, then its value and time, cut
  -- to the newest of them.
  pub apply_reading-recent_history :
      (now limit : ℕ) (chip : Text) (r : SensorReading) (parsed : Float) (m : Module Float)
      → parse_float r.value ≡ some parsed
      → limit ≤ max_points
      → 0 < limit
      → recent_history fl chip r.name limit (apply_reading fl now chip r m).1
        ≡ keep_last limit (
            series_of (history_key chip r.name) m.history
            ++ record { at_time = now; value = parsed } ∷ [])
  unfolding recent_history apply_reading extend_series
  apply_reading-recent_history now limit chip r parsed m read small some_asked =
      let key = history_key chip r.name in
      let p : HistoryPoint Float = record { at_time = now; value = parsed } in
      let series = series_of key m.history ++ p ∷ [] in
      let stored = series_of-assign key key (keep_last max_points series) m.history in
      let same = (eq_iff key key).1 refl in
      rw (recent_history, read, apply_reading, extend_series, stored, same)
        (ground (arith, keep_last-keep_last limit max_points series small))

  -- What JSON is known for: what is decoded from the encoding of a state has the same entries, under
  -- keys in another order.
  pub record Restores : Type 0 where
    pub decoded :
        (state : PersistedState Float) (raw : Text)
        → file.encode state ≡ some raw
        → (history : Dict (List (HistoryPoint Float))) × (thresholds : Dict Float) × (file.decode
              raw
            ≡ some (record { history = some history; thresholds = some thresholds }))
          × ((key : Text) → find key history ≡ find key state.history)
          × ((key : Text) → find key thresholds ≡ find key state.thresholds)

  -- The time of a point in seconds, and cut to whole seconds.
  abbrev pub in_seconds : HistoryPoint Float → HistoryPoint Float
  in_seconds p = record p { at_time = p.at_time / 1000000000 }

  abbrev pub whole_seconds : HistoryPoint Float → HistoryPoint Float
  whole_seconds p = record p { at_time = p.at_time / 1000000000 * 1000000000 }

  map-whole_seconds :
      (points : List (HistoryPoint Float))
      → map from_unix (map to_unix points) ≡ map whole_seconds points
  map-whole_seconds [] = refl
  map-whole_seconds (p ∷ points) = ap (◌∷◌ (whole_seconds p)) (map-whole_seconds points)

  saved-save_state_locked :
      (m : Module Float) (raw : Text)
      → trim_space m.path ≢ []
      → file.encode
          (record { history = map_values (map in_seconds) m.history; thresholds = m.thresholds })
        ≡ some raw
      → file.make_directory m.path ≡ true
      → file.write_file m.path raw m.saved ≡ some raw
      → (save_state_locked file m).saved ≡ some raw
  unfolding save_state_locked
  saved-save_state_locked m raw placed encoded made written =
      let path_given : (trim_space m.path == []) ≡ false =
        ground (arith, eq_iff (trim_space m.path) []) in
      rw (save_state_locked, path_given, encoded, made) written

  -- If a module has a path for its state, its state has a form in JSON, and it can be written, then a
  -- module that starts from the file has the same thresholds, and the same history with its times cut
  -- to whole seconds.
  pub load_state-save_state_locked :
      (m fresh : Module Float) (raw : Text)
      → Restores
      → trim_space m.path ≢ []
      → fresh.path ≡ m.path
      → file.encode
          (record { history = map_values (map in_seconds) m.history; thresholds = m.thresholds })
        ≡ some raw
      → file.make_directory m.path ≡ true
      → file.write_file m.path raw m.saved ≡ some raw
      → ((key : Text)
          → find key
              (load_state file
                (record fresh { saved = (save_state_locked file m).saved })).thresholds
            ≡ find key m.thresholds)
        × ((key : Text)
            → series_of key
                (load_state file
                  (record fresh { saved = (save_state_locked file m).saved })).history
              ≡ map whole_seconds (series_of key m.history))
  unfolding load_state restored
  load_state-save_state_locked m fresh raw restores placed same encoded made written =
      let stored = saved-save_state_locked m raw placed encoded made written in
      let path_given : (trim_space fresh.path == []) ≡ false =
        ground (arith, same, eq_iff (trim_space m.path) []) in
      let (history, thresholds, known, series, limits) = restores.decoded _ raw encoded in
      (
        λ key. rw (load_state, path_given, stored, known) (limits key),
        λ key.
            rw (load_state, path_given, stored, known, restored)
              (series_of-map_values (map from_unix) key history refl
                ∙ ap (map from_unix)
                    (same_series key history (map_values (map to_unix) m.history) (series key))
                ∙ ap (map from_unix) (series_of-map_values (map to_unix) key m.history refl)
                ∙ map-whole_seconds (series_of key m.history)),
      )
