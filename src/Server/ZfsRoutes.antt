-- ===== src/Server/ZfsRoutes.antt =====
-- The ZFS handlers of internal/server/router.go (`registerZFSAPI`, but for the event stream), and
-- the pages of events and tasks.
use porcelain.Prelude.{List, [], ◌∷◌, Option, none, some, Result, ok, err}
use porcelain.Text.{Text, codes, join}
use porcelain.Text.Number.{query_limit}
use porcelain.Host.{Host, World, Floats}
use porcelain.Policy.{OpaStyleAuthorizer}
use porcelain.Registry.{Registry, put}
use porcelain.Zfs
use porcelain.Zfs.{Task, TaskState, running, done, failed}
use porcelain.Zfs.Commands
use porcelain.Zfs.Commands.{ZfsError}
use porcelain.Zfs.Recent.{recent_events}
use porcelain.Server.{
  Request, status_ok, note, zfs_error, Response, Fiber, HostModule, zfs_module, App, Reply, Handler,
  pre_page, sent, fail, gated, with_module,
}

module _ (fiber : Fiber) (host : Host) (authorizer : OpaStyleAuthorizer) (fl : Floats) where
  open fl use {Float, zero_float}

  -- The app after the ZFS module has changed and commands have run.
  abbrev pub updated :
      Registry (HostModule Float) → Zfs.Module Float → World → App Float → App Float
  updated r zm w app = record app {
    registry = some (put (codes "zfs") (zfs_module zm) r);
    world = w;
  }

  unfoldable pub as_zfs :
      (Registry (HostModule Float) → Zfs.Module Float → Handler Float)
      → Registry (HostModule Float)
      → HostModule Float
      → Handler Float
  unfolding fail
  as_zfs rest r (zfs_module zm) = rest r zm
  as_zfs rest r _ = fail fiber 500 (note "invalid zfs module type")

  unfoldable pub with_zfs :
      (Registry (HostModule Float) → Zfs.Module Float → Handler Float) → Handler Float
  unfolding with_module as_zfs
  with_zfs rest = with_module fiber (codes "zfs") "zfs module not registered" (as_zfs rest)

  -- 400 with the error, or `{"status":"ok"}`; no reply if the operation does not return.
  unfoldable pub answer :
      Registry (HostModule Float)
      → App Float
      → Option (Result ZfsError (Unit {0}) × Zfs.Module Float × World)
      → Response
      → Option (Reply Float)
  unfolding fail
  answer r app none response = none
  answer r app (some (err e, zm, w)) response =
      fail fiber 400 (zfs_error e) (updated r zm w app) response
  answer r app (some (ok _, zm, w)) response =
      sent (updated r zm w app) (fiber.send_json status_ok response)

  -- POST /api/zfs/pools
  unfoldable pub post_pool : Request → Handler Float
  unfolding gated with_zfs answer
  post_pool req = gated fiber authorizer req (codes "zfs.pool.create") (codes "global") (
      with_zfs λ r zm app. answer r app (
        Commands.create_pool zero_float host (req.form "name") (req.form "raid")
          (req.form "compression") req.devices zm app.world))

  -- POST /api/zfs/pools/:name/scrub
  unfoldable pub post_scrub : Request → Handler Float
  unfolding gated with_zfs answer
  post_scrub req = gated fiber authorizer req (codes "zfs.pool.scrub") (req.param "name") (
      with_zfs λ r zm app.
        answer r app (Commands.start_scrub zero_float host (req.param "name") zm app.world))

  -- POST /api/zfs/pools/:name/scrub/stop
  unfoldable pub post_scrub_stop : Request → Handler Float
  unfolding gated with_zfs answer
  post_scrub_stop req =
      gated fiber authorizer req (codes "zfs.pool.scrub.stop") (req.param "name") (
        with_zfs λ r zm app.
          answer r app (Commands.stop_scrub zero_float host (req.param "name") zm app.world))

  -- POST /api/zfs/pools/:name/snapshot; `stamp` is the time of the call, as text.
  unfoldable pub post_snapshot : Text → Request → Handler Float
  unfolding gated with_zfs answer
  post_snapshot stamp req =
      gated fiber authorizer req (codes "zfs.pool.snapshot") (req.param "name") (
        with_zfs λ r zm app. answer r app (
          Commands.create_snapshot zero_float host stamp (req.param "name")
            (req.form "snapshotName") zm app.world))

  -- DELETE /api/zfs/pools/:name
  unfoldable pub delete_pool : Request → Handler Float
  unfolding gated with_zfs answer
  delete_pool req = gated fiber authorizer req (codes "zfs.pool.destroy") (req.param "name") (
      with_zfs λ r zm app.
        answer r app (Commands.destroy_pool zero_float host (req.param "name") zm app.world))

  -- GET /api/zfs/events, with `renderZFSEventsHTML`
  unfoldable pub answer_events :
      Registry (HostModule Float)
      → Zfs.Module Float
      → App Float
      → Result ZfsError (List Text) × World
      → Response
      → Option (Reply Float)
  unfolding fail pre_page
  answer_events r zm app (err e, w) response =
      fail fiber 400 (zfs_error e) (updated r zm w app) response
  answer_events r zm app (ok lines, w) response =
      sent (updated r zm w app) (fiber.send_string (pre_page (join lines (b'\n' ∷ []))) response)

  unfoldable pub get_events : Request → Handler Float
  unfolding with_zfs answer_events
  get_events req = with_zfs λ r zm app.
      answer_events r zm app
        (recent_events fl host (query_limit 40 200 (req.query "limit")) zm app.world)
