-- ===== src/Zfs/Listing.antt =====
-- internal/modules/zfs/zfs.go: the page of pools and datasets (`Snapshot`, `listPools`,
-- `listDatasets`, `poolScrubStatus`, `parseZFSBytes`).
pub mod Laws
use porcelain.Prelude.{
  ℕ, zero, suc, Bool, true, false, ◌||◌, ◌+◌, ◌-◌, List, [], ◌∷◌, ◌++◌, Option, none, some,
  if◌then◌else◌, eqb, ltb, length, take, drop,
}
use porcelain.Text.{
  Text, codes, ◌==◌, trim_space, trim_prefix, has_prefix, contains, index, split, upper,
}
use porcelain.Text.Decimal.{decimal}
use porcelain.Host.{Host, World, Floats, exec}
use porcelain.Registry.{Status, healthy, degraded, unavailable}
use porcelain.Zfs.{Mode, present, fake, other, Module}
use porcelain.Zfs.Status.{status_and_timestamp}
use porcelain.Zfs.Commands.{is_fake, zpool, zfs}
use porcelain.Zfs.Recent.{scrub_progress, status_command}

-- `New`, given whether `zpool` is on the path.
unfoldable pub new_zfs : {F : Type 0} → Bool → Module F
new_zfs found = record { mode = if found then present else fake; locked = false; tasks = [] }

-- `Status`.
unfoldable pub zfs_status : {F : Type 0} → Module F → Status
zfs_status m = elim m.mode [
  | present ↦ record { health = healthy; detail = codes "zpool on PATH" }
  | fake ↦ record { health = degraded; detail = codes "zpool not installed" }
  | other ↦ record { health = unavailable; detail = [] }
]

-- Multiplication by 1024 and the conversion to `int64`.
pub record Sizes (fl : Floats) : Type 1 where
  pub Int64 : Type 0
  pub zero_size : Int64
  pub times_1024 : fl.Float → fl.Float
  pub to_int64 : fl.Float → Int64

-- How often the number in front of a unit is multiplied by 1024; 0 for any other last character.
unfoldable pub unit_power : ℕ → ℕ
unit_power c =
    if eqb c b'K'
    then 1
    else if eqb c b'M'
    then 2
    else if eqb c b'G'
    then 3
    else if eqb c b'T'
    then 4
    else if eqb c b'P'
    then 5
    else 0

-- The last character, after the text in front of it.
unfoldable pub unsnoc : Text → Option (Text × ℕ)
unsnoc [] = none
unsnoc (c ∷ s) = elim (unsnoc s) [ none ↦ some ([], c) | some (t, d) ↦ some (c ∷ t, d) ]

module _ (fl : Floats) (sizes : Sizes fl) where
  open fl use {Float, parse_float}
  open sizes use {Int64, zero_size, times_1024, to_int64}

  pub record ZfsDataset : Type 0 where
    pub name : Text
    pub used : Int64
    pub available : Int64

  pub record ZfsPool : Type 0 where
    pub name : Text
    pub health : Text
    pub compression_ratio : Text
    pub deduplication : Text
    pub size : Int64
    pub allocated : Int64
    pub datasets : List ZfsDataset
    pub scrub_status : Text
    pub last_scrub : Text

  unfoldable pub scaled : ℕ → Float → Float
  scaled zero v = v
  scaled (suc k) v = times_1024 (scaled k v)

  -- A size behind its trimming: the number in front of the last character, times its unit. The code
  -- cuts the last byte off: of a character beyond ASCII a piece stays behind, which is no number.
  unfoldable pub size_of : Text → ℕ → Int64
  unfolding scaled unit_power
  size_of number unit =
      let size : Int64 = elim (parse_float number) [
        | none ↦ zero_size
        | some v ↦ to_int64 (scaled (unit_power (upper unit)) v)
      ] in
      if ltb unit 128 then size else zero_size

  unfoldable pub parse_zfs_bytes : Text → Int64
  unfolding size_of unsnoc
  parse_zfs_bytes raw =
      let s = trim_space raw in
      let size : Int64 = elim (unsnoc s) [
        | none ↦ zero_size
        | some (number, unit) ↦ size_of number unit
      ] in
      if s == [] || s == codes "-" then zero_size else if ltb (length s) 2 then zero_size else size

  -- The first text of a list, or a dash.
  abbrev pub or_dash : List Text → Text
  or_dash [] = codes "-"
  or_dash (s ∷ _) = s

  -- A line of `zpool list`, in columns; fewer than five columns give no pool.
  unfoldable pub read_pool : List Text → Option ZfsPool
  unfolding parse_zfs_bytes
  read_pool (name ∷ health ∷ size ∷ allocated ∷ free ∷ rest) = some (record {
    name = name;
    health = health;
    compression_ratio = or_dash rest;
    deduplication = or_dash (drop 1 rest);
    size = parse_zfs_bytes size;
    allocated = parse_zfs_bytes allocated;
    datasets = [];
    scrub_status = [];
    last_scrub = [];
  })
  read_pool _ = none

  -- A line of `zfs list`, in columns; fewer than three columns give no dataset.
  unfoldable pub read_dataset : List Text → Option ZfsDataset
  unfolding parse_zfs_bytes
  read_dataset (name ∷ used ∷ available ∷ rest) =
      some
        (record { name = name; used = parse_zfs_bytes used; available = parse_zfs_bytes available })
  read_dataset _ = none

  -- The rows of a table: lines that are not blank, trimmed and cut at tabs.
  unfoldable pub read_rows : {A : Type 0} → (List Text → Option A) → List Text → List A
  read_rows read [] = []
  read_rows read (line ∷ lines) =
      let text = trim_space line in
      let rest = read_rows read lines in
      if text == []
      then rest
      else elim (read (split text b'\t')) [ none ↦ rest | some a ↦ a ∷ rest ]

  unfoldable pub read_table : {A : Type 0} → (List Text → Option A) → Text → List A
  unfolding read_rows
  read_table read output = read_rows read (split (trim_space output) b'\n')

  -- The `scan:` line of `zpool status`, for `poolScrubStatus`.
  unfoldable pub scrub_line : Text → Text × Text
  scrub_line rest =
      if contains rest (codes "scrub repaired") || contains rest (codes "scrub in progress")
      then elim (index rest (codes " on ")) [
        | none ↦ (codes "scrubbed", [])
        | some i ↦ (codes "scrubbed", trim_space (drop (i + 4) rest))
      ]
      else if contains rest (codes "none requested")
      then (codes "none", [])
      else (rest, [])

  unfoldable pub find_scrub_line : List Text → Text × Text
  unfolding scrub_line
  find_scrub_line [] = (codes "unknown", [])
  find_scrub_line (line ∷ lines) =
      let text = trim_space line in
      let rest = find_scrub_line lines in
      if has_prefix text (codes "scan:")
      then scrub_line (trim_space (trim_prefix text (codes "scan:")))
      else rest

  module _ (host : Host) where
    -- `listPools`; an error carries the error of the command.
    unfoldable pub list_pools : World → (Option Text × List ZfsPool) × World
    unfolding read_table read_pool exec
    list_pools w =
        let columns = codes "name,health,size,alloc,free,ratio,dedup" in
        let answer = exec host w (zpool (codes "list" ∷ codes "-H" ∷ codes "-o" ∷ columns ∷ [])) in
        elim answer.0.failure [
          | some e ↦ ((some e, []), answer.1)
          | none ↦ ((none, read_table read_pool answer.0.output), answer.1)
        ]

    -- `listDatasets`; the caller ignores its errors, which give no datasets.
    unfoldable pub list_datasets : Text → World → List ZfsDataset × World
    unfolding read_table read_dataset exec
    list_datasets pool w =
        let args =
          codes "list"
          ∷ codes "-H"
          ∷ codes "-o"
          ∷ codes "name,used,avail"
          ∷ codes "-r"
          ∷ pool
          ∷ [] in
        let answer = exec host w (zfs args) in
        elim answer.0.failure [
          | some _ ↦ ([], answer.1)
          | none ↦ (read_table read_dataset answer.0.output, answer.1)
        ]

    unfoldable pub pool_scrub_status : Text → World → (Text × Text) × World
    unfolding find_scrub_line exec
    pool_scrub_status pool w =
        let answer = exec host w (status_command fl host pool) in
        elim answer.0.failure [
          | some _ ↦ ((codes "unknown", []), answer.1)
          | none ↦ (find_scrub_line (split answer.0.output b'\n'), answer.1)
        ]

    -- The text and the time of the last scrub of a pool.
    unfoldable pub scrub_of : Text → Module Float → World → (Text × Text) × World
    unfolding pool_scrub_status
    scrub_of pool m w =
        let read = scrub_progress fl host pool m w in
        let fallback = pool_scrub_status pool read.1 in
        elim read.0 [ none ↦ fallback | some p ↦ (status_and_timestamp fl p, read.1) ]

    -- The loop of `Snapshot` over the pools.
    unfoldable pub fill_pools : List ZfsPool → Module Float → World → List ZfsPool × World
    unfolding list_datasets scrub_of
    fill_pools [] m w = ([], w)
    fill_pools (p ∷ ps) m w =
        let listed = list_datasets p.name w in
        let scrub = scrub_of p.name m listed.1 in
        let rest = fill_pools ps m scrub.1 in
        (
          record p { datasets = listed.0; scrub_status = scrub.0.0; last_scrub = scrub.0.1 }
              ∷ rest.0,
          rest.1,
        )

    -- `Snapshot`: the detail line and the pools, and the world after it.
    unfoldable pub zfs_snapshot : Module Float → World → (Text × List ZfsPool) × World
    unfolding list_pools fill_pools
    zfs_snapshot m w =
        let listed = list_pools w in
        let filled = fill_pools listed.0.1 m listed.1 in
        if is_fake m.mode then ((codes "zpool not installed", []), w) else elim listed.0.0 [
          | some e ↦ ((codes "zpool list failed: " ++ e, []), listed.1)
          | none ↦ ((decimal (length filled.0) ++ codes " pool(s)", filled.0), filled.1)
        ]
