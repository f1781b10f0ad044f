-- ===== src/Server/Stream.antt =====
-- internal/server/router.go: the list of ZFS tasks as HTML, and the events of the stream
-- (`renderZFSTasksHTML`, `renderZFSEventsHTML`, `writeSSEEvent`). The form of a time in RFC 3339 is
-- a parameter. A writer that fails ends the stream, and is not modelled.
pub mod Laws
use porcelain.Prelude.{
  ℕ, Bool, true, false, List, [], ◌∷◌, ◌++◌, Option, none, some, if◌then◌else◌, Result, ok, err,
}
use porcelain.Text.{Text, codes, ◌==◌, trim_space, split, join}
use porcelain.Text.Escape.{escape_html}
use porcelain.Text.Number.{query_limit}
use porcelain.Host.{Host, World, Floats}
use porcelain.Policy.{OpaStyleAuthorizer}
use porcelain.Zfs.{Task, TaskState, running, done, failed}
use porcelain.Zfs
use porcelain.Zfs.Recent.{recent_tasks}
use porcelain.Server.{Request, html, Fiber, Handler, sent}
use porcelain.Server.ZfsRoutes.{updated, with_zfs}

-- The lines of an event.
unfoldable pub sse_data : List Text → Text
sse_data [] = []
sse_data (line ∷ lines) = codes "data: " ++ line ++ b'\n' ∷ sse_data lines

unfoldable pub write_sse_event : Text → Text → Text
unfolding sse_data
write_sse_event name data_text =
    codes "event: " ++ name ++ b'\n' ∷ (sse_data (split data_text b'\n') ++ b'\n' ∷ [])

unfoldable pub state_text : TaskState → Text
state_text running = codes "running"
state_text done = codes "done"
state_text failed = codes "failed"

unfoldable pub state_class : TaskState → Text
state_class done = codes "badge-success"
state_class failed = codes "badge-danger"
state_class running = codes "badge-warning"

-- A text between two pieces of markup.
abbrev pub tagged : Text → Text → Text → Text
tagged before s after = before ++ escape_html s ++ after

module _ (fl : Floats) (format_time : ℕ → Text) where
  open fl use {Float, is_positive, fixed_two}

  unfoldable pub progress_html : Float → Text
  progress_html progress =
      codes "<div class=\"mt-2\">"
      ++ codes "<div class=\"flex items-center justify-between gap-2 text-[11px] opacity-80\">"
      ++ codes "<span>progress</span>"
      ++ tagged (codes "<span>") (fixed_two progress ++ codes "%") (codes "</span>")
      ++ codes "</div>"
      ++ codes
          "<div class=\"mt-1 h-1.5 overflow-hidden rounded bg-porcelain-200 dark:bg-porcelain-800\">"
      ++ tagged (codes "<div class=\"h-full bg-accent-info\" style=\"width: ") (fixed_two progress)
          (codes "%\"></div>")
      ++ codes "</div>"
      ++ codes "</div>"

  -- One task of the list.
  unfoldable pub task_html : Task Float → Text
  unfolding progress_html state_text state_class
  task_html t =
      codes "<div class=\"rounded border px-2 py-1\">"
      ++ codes "<div class=\"flex items-center justify-between gap-2\">"
      ++ tagged (codes "<span class=\"text-xs font-mono\">") (t.action ++ codes " " ++ t.target)
          (codes "</span>")
      ++ (codes "<span class=\"badge " ++ state_class t.state ++ codes "\">")
      ++ tagged [] (state_text t.state) (codes "</span>")
      ++ codes "</div>"
      ++ (if is_positive t.progress then progress_html t.progress else [])
      ++ (if trim_space t.message == []
          then []
          else tagged (codes "<p class=\"text-xs mt-1\">") t.message (codes "</p>"))
      ++ (if trim_space t.eta == []
          then []
          else tagged (codes "<p class=\"text-[11px] opacity-70 mt-1\">ETA: ") t.eta (codes "</p>"))
      ++ tagged (codes "<p class=\"text-[11px] opacity-70 mt-1\">") (format_time t.started_at)
          (codes "</p>")
      ++ codes "</div>"

  unfoldable pub task_list_html : List (Task Float) → Text
  unfolding task_html
  task_list_html [] = []
  task_list_html (t ∷ ts) = task_html t ++ task_list_html ts

  -- `renderZFSTasksHTML` of the tasks that `RecentTasks` returns.
  unfoldable pub tasks_html : List (Task Float) → Text
  unfolding task_list_html
  tasks_html [] = codes "<p class=\"text-xs\">No tracked ZFS operations yet.</p>"
  tasks_html (t ∷ ts) =
      codes "<div class=\"space-y-1\">" ++ task_list_html (t ∷ ts) ++ codes "</div>"

  -- GET /api/zfs/tasks
  unfoldable pub get_tasks : Fiber → Host → OpaStyleAuthorizer → Request → Handler Float
  unfolding tasks_html with_zfs
  get_tasks fiber host authorizer req = with_zfs fiber host authorizer fl λ r zm app response.
      elim (recent_tasks fl host (query_limit 20 200 (req.query "limit")) zm app.world) [
        | none ↦ none
        | some (tasks, zm', w) ↦
            sent (updated fiber host authorizer fl r zm' w app)
              (fiber.send_string (html (tasks_html tasks)) response)
      ]
