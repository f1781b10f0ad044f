-- ===== src/Zfs/Recent.antt =====
-- internal/modules/zfs/zfs.go: `RecentTasks` and `enrichTasks`. The lock is held all the time.
pub mod Laws
use porcelain.Prelude.{
  ℕ, Bool, true, false, not, ◌||◌, ◌&&◌, List, [], ◌∷◌, Option, none, some, if◌then◌else◌, take,
  reverse, is_nil, eqb, Result, ok, err, keep_last,
}
use porcelain.Text.{Text, codes, ◌==◌, trim_space, split}
use porcelain.Host.{Command, World, Host, Floats, exec}
use porcelain.Zfs.{Task, TaskState, running, done, failed, Module, ◌>>=◌, update_task, lock, unlock}
use porcelain.Zfs.Status.{ScrubProgress, parse_scrub_progress, task_message, completion_message}
use porcelain.Zfs.Commands.{ZfsError, not_installed, events_failed, is_fake, zpool}

abbrev pub is_running : TaskState → Bool
is_running running = true
is_running _ = false

module _ (fl : Floats) (host : Host) where
  open fl use {Float}

  abbrev pub status_command : Text → Command
  status_command pool = zpool (codes "status" ∷ codes "-v" ∷ pool ∷ [])

  -- `scrubProgress`; `none` where it returns an error.
  unfoldable pub scrub_progress : Text → Module Float → World → Option (ScrubProgress Float) × World
  unfolding exec
  scrub_progress pool m w =
      if is_fake m.mode
      then (none, w)
      else (let answer = exec host w (status_command pool) in
          elim answer.0.failure [
            | some _ ↦ (none, answer.1)
            | none ↦ (some (parse_scrub_progress fl pool answer.0.output), answer.1)
          ])

  abbrev pub Listed : Type 0
  Listed = Task Float × Module Float × World

  unfoldable pub final_message : ScrubProgress Float → Text
  unfolding completion_message
  final_message p =
      let message = completion_message fl p in
      if trim_space message == [] then codes "scrub finished" else message

  -- What `enrichTasks` does with a scrub whose progress it has read.
  unfoldable pub apply_progress :
      Task Float → ScrubProgress Float → Module Float → World → Option Listed
  unfolding final_message
  apply_progress t p m w =
      let message = final_message p in
      let finish = update_task t.id done message (host.now w) m in
      if p.in_progress
      then some (record t { progress = p.percent; eta = p.eta; message = task_message fl p }, m, w)
      else do m' ← finish; some (record t { state = done; message = message }, m', w)

  -- One round of the loop of `enrichTasks`.
  unfoldable pub enrich_task : Task Float → Module Float → World → Option Listed
  unfolding apply_progress scrub_progress
  enrich_task t m w =
      if not (t.action == codes "scrub-start") || not (is_running t.state)
      then some (t, m, w)
      else (let read = scrub_progress t.target m w in
          elim read.0 [ none ↦ some (t, m, read.1) | some p ↦ apply_progress t p m read.1 ])

  unfoldable pub enrich_tasks :
      List (Task Float) → Module Float → World → Option (List (Task Float) × Module Float × World)
  unfolding enrich_task
  enrich_tasks [] m w = some ([], m, w)
  enrich_tasks (t ∷ ts) m w = do
    first ← enrich_task t m w
    rest ← enrich_tasks ts first.1 first.2
    some (first.0 ∷ rest.0, rest.1, rest.2)

  -- The body of `RecentTasks` once it holds the lock.
  unfoldable pub list_newest :
      ℕ → Module Float → World → Option (List (Task Float) × Module Float × World)
  unfolding unlock
  list_newest count held w =
      let listed = enrich_tasks (take count (reverse held.tasks)) held w in
      if is_nil held.tasks
      then some ([], unlock held, w)
      else (listed >>= λ l. some (l.0, unlock l.1, l.2))

  -- A limit of 0 stands for every limit that is not positive.
  unfoldable pub recent_tasks :
      ℕ → Module Float → World → Option (List (Task Float) × Module Float × World)
  unfolding lock list_newest
  recent_tasks limit m w = do held ← lock m; list_newest (if eqb limit 0 then 30 else limit) held w

  -- The lines that are not blank, trimmed.
  unfoldable pub clean_lines : List Text → List Text
  clean_lines [] = []
  clean_lines (line ∷ lines) =
      let text = trim_space line in
      let rest = clean_lines lines in if text == [] then rest else text ∷ rest

  -- `RecentEvents`; a limit of 0 stands for every limit that is not positive.
  unfoldable pub recent_events : ℕ → Module Float → World → Result ZfsError (List Text) × World
  unfolding clean_lines exec
  recent_events limit m w =
      let answer = exec host w (zpool (codes "events" ∷ codes "-v" ∷ [])) in
      if is_fake m.mode then (err not_installed, w) else elim answer.0.failure [
        | some _ ↦ (err (events_failed (trim_space answer.0.output)), answer.1)
        | none ↦ (
          ok (
              keep_last (if eqb limit 0 then 40 else limit)
                (clean_lines (split answer.0.output b'\n'))),
          answer.1,
        )
      ]
