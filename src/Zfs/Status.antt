-- ===== src/Zfs/Status.antt =====
-- internal/modules/zfs/zfs.go: reading the `scan:` line of `zpool status -v`.
use porcelain.Prelude.{
  ℕ, Bool, true, false, ◌||◌, List, [], ◌∷◌, ◌++◌, Option, none, some, if◌then◌else◌, take, drop,
  suc, ◌+◌, is_nil,
}
use porcelain.Text.{
  Text, codes, ◌==◌, trim_space, has_prefix, trim_prefix, index, last_index, contains, split, join,
}
use porcelain.Host.{Floats}

pub record ScrubProgress (F : Type 0) : Type 0 where
  pub pool : Text
  pub summary : Text
  pub details : Text
  pub state : Text
  pub percent : F
  pub eta : Text
  pub started_at : Text
  pub in_progress : Bool

-- The text behind the first occurrence of a marker, trimmed; empty if there is none.
unfoldable pub text_after : Text → Text → ℕ → Text
text_after s marker width = elim (index s marker) [
  | none ↦ []
  | some i ↦ trim_space (drop (i + width) s)
]

-- The last field of a list with commas, trimmed; the whole text if there is no comma.
unfoldable pub last_field : Text → Text
last_field s = elim (last_index s b',') [ none ↦ s | some i ↦ trim_space (drop (suc i) s) ]

-- `parseScrubETA`.
unfoldable pub parse_scrub_eta : Text → Text
parse_scrub_eta detail = elim (index detail (codes " to go")) [
  | none ↦ []
  | some i ↦
      let left = trim_space (take i detail) in
      elim (last_index left b',') [ none ↦ [] | some j ↦ trim_space (drop (suc j) left) ]
]

-- The first line that is not blank, trimmed.
unfoldable pub first_detail : List Text → Option Text
first_detail [] = none
first_detail (line ∷ lines) =
    let detail = trim_space line in
    let rest = first_detail lines in if detail == [] then rest else some detail

module _ (fl : Floats) where
  open fl use {Float, zero_float, is_positive, parse_float, fixed_two, fixed_zero}

  unfoldable pub parse_scrub_percent : Text → Float
  unfolding last_field
  parse_scrub_percent detail = elim (index detail (codes "% done")) [
    | none ↦ zero_float
    | some i ↦ elim (parse_float (last_field (trim_space (take i detail)))) [
      | none ↦ zero_float
      | some value ↦ value
    ]
  ]

  -- What is known once the `scan:` line has been read: its text is `rest`.
  abbrev pub seen : Text → Text → Text → ScrubProgress Float
  seen pool rest state = record {
    pool = pool;
    summary = rest;
    details = [];
    state = state;
    percent = zero_float;
    eta = [];
    started_at = text_after rest (codes " since ") 7;
    in_progress = false;
  }

  unfoldable pub with_detail : ScrubProgress Float → Option Text → ScrubProgress Float
  unfolding parse_scrub_percent parse_scrub_eta
  with_detail p none = p
  with_detail p (some detail) = record p {
    details = detail;
    percent = parse_scrub_percent detail;
    eta = parse_scrub_eta detail;
  }

  unfoldable pub read_scan : Text → Text → List Text → ScrubProgress Float
  unfolding with_detail text_after first_detail
  read_scan pool rest lines =
      if contains rest (codes "scrub in progress")
      then with_detail (record (seen pool rest (codes "running")) { in_progress = true })
          (first_detail lines)
      else if contains rest (codes "scrub repaired")
      then seen pool rest (codes "done")
      else if contains rest (codes "scrub canceled") || contains rest (codes "scrub stopped")
      then seen pool rest (codes "stopped")
      else if contains rest (codes "none requested")
      then seen pool rest (codes "idle")
      else seen pool rest rest

  -- The loop over the lines, up to the first that begins with `scan:`.
  unfoldable pub scan_lines : Text → List Text → ScrubProgress Float
  unfolding read_scan
  scan_lines pool [] = record (seen pool [] (codes "unknown")) { started_at = [] }
  scan_lines pool (line ∷ lines) =
      let trimmed = trim_space line in
      let rest = scan_lines pool lines in
      if has_prefix trimmed (codes "scan:")
      then read_scan pool (trim_space (trim_prefix trimmed (codes "scan:"))) lines
      else rest

  unfoldable pub parse_scrub_progress : Text → Text → ScrubProgress Float
  unfolding scan_lines
  parse_scrub_progress pool raw = scan_lines pool (split raw b'\n')

  -- A part of the message, if the condition does not rule it out.
  abbrev pub part : Bool → Text → List Text
  part true s = s ∷ []
  part false s = []

  abbrev pub blank : Text → Bool
  blank s = trim_space s == []

  abbrev pub unless_blank : Text → Text → List Text
  unless_blank s message = if blank s then [] else message ∷ []

  -- The separator is a space, U+00B7 and a space.
  unfoldable pub task_message : ScrubProgress Float → Text
  task_message s =
      let parts =
        part (is_positive s.percent) (fixed_two s.percent ++ codes "% done")
        ++ (unless_blank s.eta (s.eta ++ codes " to go")
            ++ unless_blank s.started_at (codes "since " ++ s.started_at)) in
      if is_nil parts then s.summary else join parts (32 ∷ 0xB7 ∷ 32 ∷ [])

  unfoldable pub completion_message : ScrubProgress Float → Text
  completion_message s =
      if s.state == codes "stopped" || s.state == codes "done" then s.summary else []

  unfoldable pub status_and_timestamp : ScrubProgress Float → Text × Text
  status_and_timestamp s =
      if s.in_progress
      then (let status =
            codes "scrub "
            ++ (if is_positive s.percent
                then fixed_zero s.percent ++ codes "%"
                else codes "running") in
          if blank s.eta then (status, s.started_at) else (status, s.eta ++ codes " to go"))
      else elim (index s.summary (codes " on ")) [
        | some i ↦ (trim_space (take i s.summary), trim_space (drop (i + 4) s.summary))
        | none ↦ if s.state == codes "idle" then (codes "none", []) else (s.summary, s.started_at)
      ]
