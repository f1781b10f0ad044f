-- ===== src/Zfs/Log.antt =====
-- Laws of the log of tracked operations.
use porcelain.Prelude.{
  ℕ, true, List, [], ◌∷◌, ◌++◌, some, length, ◌-◌, ◌+◌, ◌≤◌, drop, ◌≡◌, refl, arith, length-append,
  length-keep_last, drop-append,
}
use porcelain.Text.{Text}
use porcelain.Zfs.{
  Task, TaskState, Module, max_tasks, append_task, update_last, set_state, update_task,
}

module _ {F : Type 0} where
  length-append_task :
      (tasks : List (Task F)) (t : Task F) → length (append_task tasks t) ≤ max_tasks
  unfolding append_task
  length-append_task tasks t = omega (arith, length-keep_last max_tasks (tasks ++ t ∷ []))

  update_last-append :
      (id : ℕ) (f : Task F → Task F) (ts : List (Task F)) (t : Task F)
      → t.id ≡ id
      → update_last id f (ts ++ t ∷ []) ≡ (ts ++ f t ∷ [], true)
  unfolding update_last
  update_last-append id f [] t e = ground (arith)
  update_last-append id f (x ∷ ts) t e = rw (update_last-append id f ts t e)

  length-update_last :
      (id : ℕ) (f : Task F → Task F) (ts : List (Task F))
      → length (update_last id f ts).0 ≡ length ts
  unfolding update_last
  length-update_last id f [] = refl
  length-update_last id f (t ∷ ts) = ground (arith, length-update_last id f ts)

  -- The newest entry survives the cut.
  pub append_task-concat :
      (tasks : List (Task F)) (t : Task F)
      → append_task tasks t ≡ drop (length tasks + 1 - max_tasks) tasks ++ t ∷ []
  unfolding append_task
  append_task-concat tasks t =
      ground
        (arith, length-append tasks (t ∷ []), drop-append (length tasks + 1 - 200) tasks (t ∷ []))

  -- To change the task that was just recorded is to have recorded the changed task.
  pub update_last-append_task :
      (id : ℕ) (f : Task F → Task F) (tasks : List (Task F)) (t : Task F)
      → t.id ≡ id
      → (update_last id f (append_task tasks t)).0 ≡ append_task tasks (f t)
  update_last-append_task id f tasks t e = rw (
    append_task-concat tasks t,
    append_task-concat tasks (f t),
    update_last-append id f (drop (length tasks + 1 - max_tasks) tasks) t e,
  )

  -- The log never grows beyond its bound.
  abbrev pub IsBounded : Module F → Type 0
  IsBounded m = length m.tasks ≤ max_tasks

  pub update_task-IsBounded :
      (id : ℕ) (state : TaskState) (msg : Text) (now : ℕ) (m : Module F) {m' : Module F}
      → IsBounded m
      → update_task id state msg now m ≡ some m'
      → IsBounded m'
  unfolding update_task
  update_task-IsBounded id state msg now m {m'} b e =
      ground (arith, length-update_last id (set_state state msg now) m.tasks)
