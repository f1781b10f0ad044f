-- ===== src/Server/SensorsRoutes.antt =====
-- The handlers of the sensors' thresholds in internal/server/router.go (`registerSensorsAPI`).
use porcelain.Prelude.{some, Result, ok, err}
use porcelain.Text.{codes}
use porcelain.Host.{Floats}
use porcelain.Policy.{OpaStyleAuthorizer}
use porcelain.Registry.{Registry, put}
use porcelain.Sensors
use porcelain.Sensors.{StateFile, SensorsError, set_threshold, clear_threshold}
use porcelain.Server.{
  Request, status_ok, note, sensors_error, Fiber, HostModule, sensors_module, App, Handler, sent,
  fail, gated, with_module,
}

module _ (fiber : Fiber) (authorizer : OpaStyleAuthorizer) (fl : Floats)
    (file : StateFile fl.Float) where
  open fl use {Float}

  -- The app after the sensors module has changed.
  abbrev pub sensed : Registry (HostModule Float) → Sensors.Module Float → App Float → App Float
  sensed r sm app = record app { registry = some (put (codes "sensors") (sensors_module sm) r) }

  unfoldable pub as_sensors :
      (Registry (HostModule Float) → Sensors.Module Float → Handler Float)
      → Registry (HostModule Float)
      → HostModule Float
      → Handler Float
  unfolding fail
  as_sensors rest r (sensors_module sm) = rest r sm
  as_sensors rest r _ = fail fiber 500 (note "invalid sensors module type")

  unfoldable pub with_sensors :
      (Registry (HostModule Float) → Sensors.Module Float → Handler Float) → Handler Float
  unfolding with_module as_sensors
  with_sensors rest =
      with_module fiber (codes "sensors") "sensors module not registered" (as_sensors rest)

  -- 400 with the error, or `{"status":"ok"}`.
  unfoldable pub answer_threshold :
      Registry (HostModule Float) → Result SensorsError (Sensors.Module Float) → Handler Float
  unfolding fail
  answer_threshold r (err e) app response = fail fiber 400 (sensors_error e) app response
  answer_threshold r (ok sm) app response =
      sent (sensed r sm app) (fiber.send_json status_ok response)

  -- POST /api/sensors/thresholds
  unfoldable pub post_threshold : Request → Handler Float
  unfolding gated with_sensors answer_threshold
  post_threshold req = gated fiber authorizer req (codes "sensors.threshold.set") (codes "global") (
      with_sensors λ r sm.
        answer_threshold r
          (set_threshold fl file (req.form "chip") (req.form "reading") (req.form "threshold") sm))

  -- DELETE /api/sensors/thresholds
  unfoldable pub delete_threshold : Request → Handler Float
  unfolding gated with_sensors answer_threshold
  delete_threshold req =
      gated fiber authorizer req (codes "sensors.threshold.clear") (codes "global") (
        with_sensors λ r sm.
          answer_threshold r
            (ok (clear_threshold fl file (req.query "chip") (req.query "reading") sm)))

  -- POST /api/sensors/thresholds/clear
  unfoldable pub post_threshold_clear : Request → Handler Float
  unfolding gated with_sensors answer_threshold
  post_threshold_clear req =
      gated fiber authorizer req (codes "sensors.threshold.clear") (codes "global") (
        with_sensors λ r sm.
          answer_threshold r
            (ok (clear_threshold fl file (req.form "chip") (req.form "reading") sm)))
