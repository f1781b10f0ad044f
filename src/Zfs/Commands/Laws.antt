-- ===== src/Zfs/Commands/Laws.antt =====
-- What the tracked operations of internal/modules/zfs/zfs.go run, return and record.
use porcelain.Prelude.{
  ℕ, false, [], ◌∷◌, ◌++◌, Option, none, some, if◌then◌else◌, Result, ok, err, ◌≡◌, ◌≢◌, refl,
  arith, inl, inr, Option-cases, sym,
}
use porcelain.Text.{Text, codes, ◌==◌, trim_space}
use porcelain.Text.Affix.{eq_iff}
use porcelain.Host.{Command, Outcome, World, Host, exec}
use porcelain.Zfs.{
  Task, TaskState, running, done, failed, Module, update_task, task_start, started, set_state,
  append_task, update_last,
}
use porcelain.Zfs.Log.{update_last-append_task}
use porcelain.Zfs.Commands.{
  ZfsError, destroy_failed, scrub_failed, stop_failed, snapshot_failed, is_fake, zpool, zfs, Step,
  give_up, settle, tracked, destroy_pool, start_scrub, stop_scrub, create_snapshot,
}

pub not_blank : (name : Text) → trim_space name ≢ [] → (trim_space name == []) ≡ false
not_blank name h = ground (arith, eq_iff (trim_space name) [])

module _ {F : Type 0} (zero_progress : F) (host : Host) where
  -- What the command's answer makes the operation return.
  abbrev pub reply : (Text → ZfsError) → Outcome → Result ZfsError (Unit {0})
  reply fails out = elim out.failure [ some _ ↦ err (fails (trim_space out.output)) | none ↦ ok tt ]

  -- When an operation in this state has ended.
  abbrev pub end_of : TaskState → ℕ → Option ℕ
  end_of running now = none
  end_of done now = some now
  end_of failed now = some now

  pub set_state_lem :
      (state : TaskState) (msg : Text) (now : ℕ) (t : Task F)
      → set_state state msg now t
        ≡ record t { state = state; message = msg; ended_at = end_of state now }
  unfolding set_state
  set_state_lem running msg now t = refl
  set_state_lem done msg now t = refl
  set_state_lem failed msg now t = refl

  -- The entry of an operation that has begun.
  abbrev pub begun : Text → Text → ℕ → Task F
  begun action target now = record {
    id = now;
    action = action;
    target = target;
    state = running;
    message = [];
    progress = zero_progress;
    eta = [];
    started_at = now;
    ended_at = none;
  }

  -- The last change to the entry `t` of a task, once the command has answered.
  abbrev pub closing : TaskState → Text → Outcome → ℕ → Task F → Task F
  closing state msg out now t = elim out.failure [
    | some _ ↦ record t { state = failed; message = trim_space out.output; ended_at = some now }
    | none ↦ record t { state = state; message = msg; ended_at = end_of state now }
  ]

  -- The entry that an operation of one command leaves in the log.
  abbrev pub entry : Text → Text → TaskState → Text → Outcome → World → Command → Task F
  entry action target state msg out w c =
      closing state msg out (host.now (c ∷ w)) (begun action target (host.now w))

  -- The operation runs one command, returns what the command's answer says, leaves one more entry
  -- in the log, and gives the lock back.
  abbrev pub Runs :
      Text
      → Text
      → Command
      → (Text → ZfsError)
      → TaskState
      → Text
      → Module F
      → World
      → Option (Step zero_progress host)
      → Type 0
  Runs action target c fails state msg m w result =
      result
      ≡ some (
        reply fails (host.run w c),
        record m {
          locked = false;
          tasks = append_task m.tasks (entry action target state msg (host.run w c) w c);
        },
        c ∷ w,
      )

  pub task_start_lem :
      (action target : Text) (now : ℕ) (m : Module F)
      → m.locked ≡ false
      → task_start zero_progress action target now m
        ≡ some (
          now,
          record m {
            locked = false;
            tasks = append_task m.tasks (started zero_progress action target now);
          },
        )
  unfolding task_start
  task_start_lem action target now m free = ground arith

  update_task_lem :
      (id : ℕ) (state : TaskState) (msg : Text) (now : ℕ) (m : Module F)
      → m.locked ≡ false
      → update_task id state msg now m
        ≡ some (record m {
          locked = false;
          tasks = (update_last id (set_state state msg now) m.tasks).0;
        })
  unfolding update_task
  update_task_lem id state msg now m free = ground arith

  pub give_up_lem :
      (fails : Text → ZfsError) (out : Outcome) (t : Task F) (m : Module F) (w : World)
      → give_up zero_progress host t.id fails out
          (record m { locked = false; tasks = append_task m.tasks t })
          w
        ≡ some (
          err (fails (trim_space out.output)),
          record m {
            locked = false;
            tasks = append_task m.tasks (set_state failed (trim_space out.output) (host.now w) t);
          },
          w,
        )
  unfolding give_up
  give_up_lem fails out t m w = rw (
    update_task_lem t.id failed (trim_space out.output) (host.now w)
        (record m { locked = false; tasks = append_task m.tasks t }) refl,
    update_last-append_task t.id (set_state failed (trim_space out.output) (host.now w)) m.tasks t
        refl,
  )

  pub settle_lem :
      (fails : Text → ZfsError) (state : TaskState) (msg : Text) (out : Outcome) (t : Task F)
      (m : Module F) (w : World)
      → settle zero_progress host t.id fails state msg out
          (record m { locked = false; tasks = append_task m.tasks t })
          w
        ≡ some (
          reply fails out,
          record m {
            locked = false;
            tasks = append_task m.tasks (closing state msg out (host.now w) t);
          },
          w,
        )
  unfolding settle
  settle_lem fails state msg out t m w = elim (Option-cases out.failure) [
    | inl e ↦ rw (
      e,
      update_task_lem t.id state msg (host.now w)
          (record m { locked = false; tasks = append_task m.tasks t }) refl,
      update_last-append_task t.id (set_state state msg (host.now w)) m.tasks t refl,
      set_state_lem state msg (host.now w) t,
    )
    | inr (message, e) ↦
        rw (e, sym (set_state_lem failed (trim_space out.output) (host.now w) t))
          (give_up_lem fails out t m w)
  ]

  tracked_lem :
      (action target : Text) (c : Command) (fails : Text → ZfsError) (state : TaskState)
      (msg : Text) (m : Module F) (w : World)
      → m.locked ≡ false
      → Runs action target c fails state msg m w
          (tracked zero_progress host action target c fails state msg m w)
  unfolding tracked exec
  tracked_lem action target c fails state msg m w free =
      rw (task_start_lem action target (host.now w) m free) (
        settle_lem fails state msg (host.run w c) (started zero_progress action target (host.now w))
          m (c ∷ w))

  -- On a module that is not locked and has `zpool`, `DestroyPool` of a pool with a name runs
  -- `zpool destroy`, fails exactly if the command does, adds one entry to the log that is done
  -- or failed accordingly, and leaves the lock free.
  pub destroy_pool-Runs :
      (name : Text) (m : Module F) (w : World)
      → m.locked ≡ false
      → is_fake m.mode ≡ false
      → trim_space name ≢ []
      → Runs
          (codes "destroy-pool")
          (trim_space name)
          (zpool (codes "destroy" ∷ trim_space name ∷ []))
          destroy_failed
          done
          (codes "pool destroyed")
          m
          w
          (destroy_pool zero_progress host name m w)
  unfolding destroy_pool
  destroy_pool-Runs name m w free real named =
      rw (real, not_blank name named) (tracked_lem _ _ _ destroy_failed _ _ m w free)

  -- `StartScrub` on a pool with a name: as `DestroyPool`, with `zpool scrub`; the entry of a
  -- success stays in the state "running".
  pub start_scrub-Runs :
      (name : Text) (m : Module F) (w : World)
      → m.locked ≡ false
      → is_fake m.mode ≡ false
      → trim_space name ≢ []
      → Runs
          (codes "scrub-start")
          (trim_space name)
          (zpool (codes "scrub" ∷ trim_space name ∷ []))
          scrub_failed
          running
          (codes "scrub started")
          m
          w
          (start_scrub zero_progress host name m w)
  unfolding start_scrub
  start_scrub-Runs name m w free real named =
      rw (real, not_blank name named) (tracked_lem _ _ _ scrub_failed _ _ m w free)

  -- `StopScrub` on a pool with a name: as `DestroyPool`, with `zpool scrub -s`.
  pub stop_scrub-Runs :
      (name : Text) (m : Module F) (w : World)
      → m.locked ≡ false
      → is_fake m.mode ≡ false
      → trim_space name ≢ []
      → Runs
          (codes "scrub-stop")
          (trim_space name)
          (zpool (codes "scrub" ∷ codes "-s" ∷ trim_space name ∷ []))
          stop_failed
          done
          (codes "scrub stop requested")
          m
          w
          (stop_scrub zero_progress host name m w)
  unfolding stop_scrub
  stop_scrub-Runs name m w free real named =
      rw (real, not_blank name named) (tracked_lem _ _ _ stop_failed _ _ m w free)

  -- On a module that is not locked and has `zpool`, `CreateSnapshot` of a dataset with a name
  -- runs `zfs snapshot` of the dataset, `@`, and the trimmed name that was given or, if that is
  -- blank, the time stamp; it fails exactly if the command does, adds one entry to the log that
  -- is done or failed accordingly, and leaves the lock free.
  pub create_snapshot-Runs :
      (stamp dataset snapshot_name : Text) (m : Module F) (w : World)
      → m.locked ≡ false
      → is_fake m.mode ≡ false
      → trim_space dataset ≢ []
      → Runs
          (codes "snapshot")
          (trim_space dataset)
          (zfs (
            codes "snapshot"
            ∷ (trim_space dataset
                ++ b'@'
                  ∷ (if trim_space snapshot_name == [] then stamp else trim_space snapshot_name))
            ∷ []))
          snapshot_failed
          done
          (codes "snapshot created")
          m
          w
          (create_snapshot zero_progress host stamp dataset snapshot_name m w)
  unfolding create_snapshot
  create_snapshot-Runs stamp dataset snapshot_name m w free real named =
      rw (real, not_blank dataset named) (tracked_lem _ _ _ snapshot_failed _ _ m w free)
