-- ===== src/Zfs/Commands.antt =====
-- The operations of internal/modules/zfs/zfs.go that run `zpool` and `zfs`.
pub mod Laws
pub mod Pool
use porcelain.Prelude.{
  ℕ, Bool, true, false, List, [], ◌∷◌, ◌++◌, Option, none, some, if◌then◌else◌, Result, ok, err,
  is_nil,
}
use porcelain.Text.{Text, codes, ◌==◌, trim_space, to_lower}
use porcelain.Host.{Command, Outcome, World, Host, command, exec}
use porcelain.Zfs.{
  Mode, present, fake, other, Task, TaskState, running, done, failed, Module, ◌>>=◌, update_task,
  task_start,
}

-- The errors; those that carry a text carry the trimmed output of the command.
pub data ZfsError : Type 0 where
  not_installed name_required dataset_required device_required : ZfsError
  create_failed compression_failed destroy_failed scrub_failed stop_failed snapshot_failed :
      Text → ZfsError
  events_failed : Text → ZfsError

abbrev pub is_fake : Mode → Bool
is_fake fake = true
is_fake _ = false

-- The trimmed names of the devices that are not blank.
unfoldable pub device_args : List Text → List Text
device_args [] = []
device_args (d ∷ devices) =
    let name = trim_space d in
    let rest = device_args devices in if name == [] then rest else name ∷ rest

-- The arguments of `zpool create`.
unfoldable pub create_args : Text → Text → List Text → List Text
unfolding device_args
create_args name raid devices =
    let level = trim_space (to_lower raid) in
    codes "create"
    ∷ name
    ∷ (if level == [] then device_args devices else level ∷ device_args devices)

-- The value of the `compression` property; "on" if none is asked for.
unfoldable pub compression_value : Text → Text
compression_value compression =
    let value = trim_space (to_lower compression) in if value == [] then codes "on" else value

abbrev pub zpool : List Text → Command
zpool args = command (codes "zpool") args

abbrev pub zfs : List Text → Command
zfs args = command (codes "zfs") args

module _ {F : Type 0} (zero_progress : F) (host : Host) where
  -- An operation's error or success, with the module and the world after it.
  abbrev pub Step : Type 0
  Step = Result ZfsError (Unit {0}) × Module F × World

  abbrev pub reject : ZfsError → Module F → World → Option Step
  reject e m w = some (err e, m, w)

  -- What an operation does when its command has failed.
  unfoldable pub give_up : ℕ → (Text → ZfsError) → Outcome → Module F → World → Option Step
  give_up id fails out m w = do
    m' ← update_task id failed (trim_space out.output) (host.now w) m
    some (err (fails (trim_space out.output)), m', w)

  -- What it does with the answer of its last command.
  unfoldable pub settle :
      ℕ → (Text → ZfsError) → TaskState → Text → Outcome → Module F → World → Option Step
  unfolding give_up
  settle id fails state msg out m w = elim out.failure [
    | some _ ↦ give_up id fails out m w
    | none ↦ do m' ← update_task id state msg (host.now w) m; some (ok tt, m', w)
  ]

  -- One tracked command, as in `DestroyPool`, `StartScrub`, `StopScrub` and `CreateSnapshot`.
  unfoldable pub tracked :
      Text → Text → Command → (Text → ZfsError) → TaskState → Text → Module F → World → Option Step
  unfolding settle
  tracked action target c fails state msg m w = do
    started ← task_start zero_progress action target (host.now w) m
    let answer = exec host w c
    settle started.0 fails state msg answer.0 started.1 answer.1

  -- The second command of `CreatePool`.
  unfoldable pub set_compression : ℕ → Text → Text → Module F → World → Option Step
  unfolding settle
  set_compression id pool compression m w =
      let property = codes "compression=" ++ compression_value compression in
      let answer = exec host w (zfs (codes "set" ∷ property ∷ pool ∷ [])) in
      settle id compression_failed done (codes "pool created") answer.0 m answer.1

  unfoldable pub create_pool : Text → Text → Text → List Text → Module F → World → Option Step
  unfolding give_up set_compression
  create_pool name raid compression devices m w =
      if is_fake m.mode
      then reject not_installed m w
      else if trim_space name == []
      then reject name_required m w
      else if is_nil devices
      then reject device_required m w
      else do
        let pool = trim_space name
        started ← task_start zero_progress (codes "create-pool") pool (host.now w) m
        let created = exec host w (zpool (create_args pool raid devices))
        elim created.0.failure [
          | some _ ↦ give_up started.0 create_failed created.0 started.1 created.1
          | none ↦ set_compression started.0 pool compression started.1 created.1
        ]

  unfoldable pub destroy_pool : Text → Module F → World → Option Step
  unfolding tracked
  destroy_pool name m w =
      let pool = trim_space name in
      if is_fake m.mode
      then reject not_installed m w
      else if pool == []
      then reject name_required m w
      else tracked (codes "destroy-pool") pool (zpool (codes "destroy" ∷ pool ∷ [])) destroy_failed
          done (codes "pool destroyed") m w

  unfoldable pub start_scrub : Text → Module F → World → Option Step
  unfolding tracked
  start_scrub name m w =
      let pool = trim_space name in
      if is_fake m.mode
      then reject not_installed m w
      else if pool == []
      then reject name_required m w
      else tracked (codes "scrub-start") pool (zpool (codes "scrub" ∷ pool ∷ [])) scrub_failed
          running (codes "scrub started") m w

  unfoldable pub stop_scrub : Text → Module F → World → Option Step
  unfolding tracked
  stop_scrub name m w =
      let pool = trim_space name in
      if is_fake m.mode
      then reject not_installed m w
      else if pool == []
      then reject name_required m w
      else tracked (codes "scrub-stop") pool (zpool (codes "scrub" ∷ codes "-s" ∷ pool ∷ []))
          stop_failed done (codes "scrub stop requested") m w

  -- `stamp` is the current time in the layout "20060102-150405".
  unfoldable pub create_snapshot : Text → Text → Text → Module F → World → Option Step
  unfolding tracked
  create_snapshot stamp dataset snapshot_name m w =
      let source = trim_space dataset in
      let given = trim_space snapshot_name in
      let name = if given == [] then stamp else given in
      if is_fake m.mode
      then reject not_installed m w
      else if source == []
      then reject dataset_required m w
      else tracked (codes "snapshot") source (zfs (codes "snapshot" ∷ (source ++ b'@' ∷ name) ∷ []))
          snapshot_failed done (codes "snapshot created") m w
