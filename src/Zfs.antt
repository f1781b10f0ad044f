-- ===== src/Zfs.antt =====
-- internal/modules/zfs/zfs.go: the state of the module and its log of tracked operations.
-- The mutex `mu` is the field `locked`. Every function that takes it returns an `Option`: `none`
-- means that the goroutine waits for a lock that it holds itself, and so waits for ever.
pub mod Log
pub mod Status
pub mod Commands
pub mod Recent
pub mod Listing
mod Tests
use porcelain.Prelude.{
  ℕ, Bool, true, false, List, [], ◌∷◌, ◌++◌, Option, none, some, eqb, if◌then◌else◌, keep_last,
  length, ltb, ◌-◌, drop,
}
use porcelain.Text.{Text}

-- `New` gives the first two; `other` stands for any other string.
pub data Mode : Type 0 where
  present fake other : Mode

-- The strings "running", "done" and "failed".
pub data TaskState : Type 0 where
  running done failed : TaskState

-- The identifier is the decimal text of a count of nanoseconds; the model keeps the number, so the
-- test `id == ""` is never met. `ended_at` is `none` where Go has the zero time.
pub record Task (F : Type 0) : Type 0 where
  pub id : ℕ
  pub action : Text
  pub target : Text
  pub state : TaskState
  pub message : Text
  pub progress : F
  pub eta : Text
  pub started_at : ℕ
  pub ended_at : Option ℕ

pub record Module (F : Type 0) : Type 0 where
  pub mode : Mode
  pub locked : Bool
  pub tasks : List (Task F)

infixl 5 ◌>>=◌
abbrev pub ◌>>=◌ : {A B : Type 0} → Option A → (A → Option B) → Option B
none >>= f = none
some a >>= f = f a

abbrev pub max_tasks : ℕ
max_tasks = 200

module _ {F : Type 0} where
  -- `m.mu.Lock()` and `m.mu.Unlock()`.
  unfoldable pub lock : Module F → Option (Module F)
  lock m = if m.locked then none else some (record m { locked = true })

  unfoldable pub unlock : Module F → Module F
  unlock m = record m { locked = false }

  -- `append`, and the cut to the newest 200.
  unfoldable pub append_task : List (Task F) → Task F → List (Task F)
  append_task tasks t = keep_last max_tasks (tasks ++ t ∷ [])

  -- The loop of `updateTask`: the last task with the identifier is changed. The flag says
  -- whether one was found.
  unfoldable pub update_last : ℕ → (Task F → Task F) → List (Task F) → List (Task F) × Bool
  update_last id f [] = ([], false)
  update_last id f (t ∷ ts) =
      let (rest, found) = update_last id f ts in
      if found then (t ∷ rest, true) else if eqb t.id id then (f t ∷ ts, true) else (t ∷ ts, false)

  unfoldable pub set_state : TaskState → Text → ℕ → Task F → Task F
  set_state running msg now t = record t { state = running; message = msg; ended_at = none }
  set_state state msg now t = record t { state = state; message = msg; ended_at = some now }

  -- `updateTask` at the time `now`.
  unfoldable pub update_task : ℕ → TaskState → Text → ℕ → Module F → Option (Module F)
  unfolding lock unlock
  update_task id state msg now m = do
    held ← lock m
    some (unlock (record held { tasks = (update_last id (set_state state msg now) held.tasks).0 }))

module _ {F : Type 0} (zero_progress : F) where
  -- The task that `taskStart` records at the time `now`.
  abbrev pub started : Text → Text → ℕ → Task F
  started action target now = record {
    id = now;
    action = action;
    target = target;
    state = running;
    message = [];
    progress = zero_progress;
    eta = [];
    started_at = now;
    ended_at = none;
  }

  unfoldable pub task_start : Text → Text → ℕ → Module F → Option (ℕ × Module F)
  unfolding lock unlock
  task_start action target now m = do
    held ← lock m
    some (now, unlock (record held { tasks = append_task held.tasks (started action target now) }))
