-- ===== src/Zfs/Recent/Laws.antt =====
-- When `RecentTasks` of internal/modules/zfs/zfs.go returns, and when it waits for its own lock.
use porcelain.Prelude.{
  ℕ, Bool, true, false, ◌&&◌, List, [], ◌∷◌, ◌++◌, none, some, if◌then◌else◌, take, reverse, is_nil,
  eqb, ◌≡◌, ◌≢◌, refl, arith, All, ◌<◌, ◌-◌, Bool-cases, inl, inr, take-nil, nil_of_is_nil,
  All-take, All-reverse, drop, length, ◌+◌, take_cons, reverse_concat, is_nil_concat, ◌∙◌,
}
use porcelain.Text.{Text, codes, ◌==◌, trim_space}
use porcelain.Host.{World, Host, Floats, exec}
use porcelain.Zfs.{
  Task, running, Module, ◌>>=◌, update_task, lock, append_task, set_state, started, max_tasks,
}
use porcelain.Zfs.Log.{append_task-concat}
use porcelain.Zfs.Status.{parse_scrub_progress}
use porcelain.Zfs.Commands.{is_fake, zpool, start_scrub}
use porcelain.Zfs.Commands.Laws.{start_scrub-Runs}
use porcelain.Zfs.Recent.{
  is_running, status_command, enrich_task, enrich_tasks, list_newest, recent_tasks,
}

module _ (fl : Floats) (host : Host) where
  open fl use {Float}

  -- The task is a scrub that is recorded as running.
  abbrev pub is_running_scrub : Task Float → Bool
  is_running_scrub t = t.action == codes "scrub-start" && is_running t.state

  enrich_task_other :
      (t : Task Float) (m : Module Float) (w : World)
      → is_running_scrub t ≡ false
      → enrich_task fl host t m w ≡ some (t, m, w)
  unfolding enrich_task
  enrich_task_other t m w h = ground arith

  enrich_tasks_other :
      (ts : List (Task Float)) (m : Module Float) (w : World)
      → All (λ t. is_running_scrub t ≡ false) ts
      → enrich_tasks fl host ts m w ≡ some (ts, m, w)
  unfolding enrich_tasks
  enrich_tasks_other [] m w h = refl
  enrich_tasks_other (t ∷ ts) m w (h, hs) =
      rw (enrich_task_other t m w h, enrich_tasks_other ts m w hs)

  -- The command `zpool status` succeeds for the pool, and its output shows no scrub in progress.
  abbrev pub ShowsNoScrub : Text → World → Type 0
  ShowsNoScrub pool w =
      let answer = host.run w (status_command fl host pool) in
      (answer.failure ≡ none) × ((parse_scrub_progress fl pool answer.output).in_progress ≡ false)

  enrich_task_finished :
      (t : Task Float) (m : Module Float) (w : World)
      → m.locked ≡ true
      → is_fake m.mode ≡ false
      → is_running_scrub t ≡ true
      → ShowsNoScrub t.target w
      → enrich_task fl host t m w ≡ none
  unfolding enrich_task update_task lock exec
  enrich_task_finished t m w held real scrub (answered, idle) =
      let started : (t.action == codes "scrub-start") ≡ true = ground arith in
      let runs : is_running t.state ≡ true = ground arith in
      rw (started, runs, real, answered, idle, held)

  recent_tasks_unlocked :
      (limit : ℕ) (m : Module Float) (w : World)
      → m.locked ≡ false
      → recent_tasks fl host limit m w
        ≡ list_newest fl host (if eqb limit 0 then 30 else limit) (record m { locked = true }) w
  unfolding recent_tasks
  recent_tasks_unlocked limit m w free = ground arith

  count_pos : (limit : ℕ) → 0 < (if eqb limit 0 then 30 else limit)
  count_pos limit = ground arith

  enrich_tasks_blocked :
      (t : Task Float) (ts : List (Task Float)) (m : Module Float) (w : World)
      → enrich_task fl host t m w ≡ none
      → enrich_tasks fl host (t ∷ ts) m w ≡ none
  unfolding enrich_tasks
  enrich_tasks_blocked t ts m w blocked = rw blocked

  list_newest_cons :
      (n : ℕ) (ts : List (Task Float)) (t : Task Float) (m : Module Float) (w : World)
      → 0 < n
      → m.tasks ≡ ts ++ t ∷ []
      → enrich_task fl host t m w ≡ none
      → list_newest fl host n m w ≡ none
  unfolding list_newest
  list_newest_cons n ts t m w pos e blocked =
      let some_task : is_nil m.tasks ≡ false = rw e (is_nil_concat ts t) in
      let newest_first : reverse m.tasks ≡ t ∷ reverse ts = rw e (reverse_concat ts t) in
      rw (
        some_task,
        newest_first,
        take_cons n t (reverse ts) pos,
        enrich_tasks_blocked t (take (n - 1) (reverse ts)) m w blocked,
      )

  -- On a module that is not locked and has `zpool`, `RecentTasks` never returns, and keeps the
  -- lock, if the newest task is a scrub recorded as running while `zpool status` succeeds and
  -- shows none in progress: `enrichTasks` then calls `taskDone`, which waits for the lock that
  -- `RecentTasks` holds.
  pub recent_tasks_blocks :
      (limit : ℕ) (ts : List (Task Float)) (t : Task Float) (m : Module Float) (w : World)
      → m.locked ≡ false
      → is_fake m.mode ≡ false
      → m.tasks ≡ ts ++ t ∷ []
      → is_running_scrub t ≡ true
      → ShowsNoScrub t.target w
      → recent_tasks fl host limit m w ≡ none
  recent_tasks_blocks limit ts t m w free real e scrub over =
      let held : Module Float = record m { locked = true } in
      recent_tasks_unlocked limit m w free
      ∙ list_newest_cons _ ts t held w (count_pos limit) e
          (enrich_task_finished t held w refl real scrub over)

  list_newest_quiet :
      (n : ℕ) (m : Module Float) (w : World)
      → All (λ t. is_running_scrub t ≡ false) m.tasks
      → list_newest fl host n m w ≡ some (take n (reverse m.tasks), record m { locked = false }, w)
  unfolding list_newest
  list_newest_quiet n m w quiet = elim (Bool-cases (is_nil m.tasks)) [
    | inl e ↦
        let empty : take n (reverse m.tasks) ≡ [] = rw (nil_of_is_nil m.tasks e) (take-nil n) in
        rw (e, empty)
    | inr e ↦ rw (
      e,
      enrich_tasks_other (take n (reverse m.tasks)) m w
          (All-take _ n (reverse m.tasks) (All-reverse _ m.tasks quiet)),
    )
  ]

  -- On a module that is not locked and has no running scrub in the log, `RecentTasks` returns
  -- the newest entries, newest first, as they are, runs no command, and leaves the module as it
  -- was.
  pub recent_tasks_returns :
      (limit : ℕ) (m : Module Float) (w : World)
      → m.locked ≡ false
      → All (λ t. is_running_scrub t ≡ false) m.tasks
      → recent_tasks fl host limit m w
        ≡ some (take (if eqb limit 0 then 30 else limit) (reverse m.tasks), m, w)
  recent_tasks_returns limit m w free quiet =
      recent_tasks_unlocked limit m w free
      ∙ list_newest_quiet _ (record m { locked = true }) w quiet
      ∙ ground arith

  -- On a module that is not locked and has `zpool`, a scrub of a named pool whose command
  -- succeeds, and which `zpool status` does not show in progress when the tasks are listed
  -- next, blocks that listing for ever.
  pub start_scrub-recent_tasks :
      (zero_progress : Float) (limit : ℕ) (name : Text) (m : Module Float) (w : World)
      → m.locked ≡ false
      → is_fake m.mode ≡ false
      → trim_space name ≢ []
      → (host.run w (zpool (codes "scrub" ∷ trim_space name ∷ []))).failure ≡ none
      → ShowsNoScrub (trim_space name) (zpool (codes "scrub" ∷ trim_space name ∷ []) ∷ w)
      → (start_scrub zero_progress host name m w >>= λ r. recent_tasks fl host limit r.1 r.2) ≡ none
  unfolding set_state
  start_scrub-recent_tasks zero_progress limit name m w free real named worked over =
      let after = zpool (codes "scrub" ∷ trim_space name ∷ []) ∷ w in
      let t : Task Float =
        set_state running (codes "scrub started") (host.now after)
          (started zero_progress (codes "scrub-start") (trim_space name) (host.now w)) in
      rw (start_scrub-Runs zero_progress host name m w free real named, worked)
        (recent_tasks_blocks limit (drop (length m.tasks + 1 - max_tasks) m.tasks) t
          (record m { locked = false; tasks = append_task m.tasks t }) after refl real
          (append_task-concat m.tasks t) (unfold ◌==◌ in refl) over)
