-- ===== src/Server/BusRoutes.antt =====
-- The handlers of internal/server/router.go that call on the bus: `registerStorageAPI`,
-- `registerSystemdAPI`, `registerNetworkAPI` and `registerFirewallAPI`.
use porcelain.Prelude.{Bool, ◌||◌, ◌++◌, Result, ok, err}
use porcelain.Text.{Text, codes, trim_space, equal_fold}
use porcelain.Policy.{OpaStyleAuthorizer}
use porcelain.Dbus.{Bus, Calls, BusError}
use porcelain.Storage
use porcelain.Diagnostics
use porcelain.Network
use porcelain.Server.{
  Request, status_ok, note, bus_error, Fiber, HostModule, storage_module, diagnostics_module,
  network_module, firewall_module, Handler, sent, fail, gated, with_module,
}

-- The states that switch networking and a service on.
abbrev pub network_state : Text → Bool
network_state state = equal_fold state (codes "true") || equal_fold state (codes "on")

abbrev pub service_state : Text → Bool
service_state state =
    equal_fold state (codes "enable")
    || equal_fold state (codes "on")
    || equal_fold state (codes "true")

module _ (fiber : Fiber) (bus : Bus) (authorizer : OpaStyleAuthorizer) {F : Type 0} where
  -- 400 with the error, or `{"status":"ok"}`, after the calls that were made.
  unfoldable pub answer_bus : Result BusError (Unit {0}) × Calls → Handler F
  unfolding fail
  answer_bus (err e, calls) app response =
      fail fiber 400 (bus_error e) (record app { calls = calls }) response
  answer_bus (ok _, calls) app response =
      sent (record app { calls = calls }) (fiber.send_json status_ok response)

  -- The checks of the modules' types.
  unfoldable pub as_storage : (Storage.Module → Handler F) → HostModule F → Handler F
  unfolding fail
  as_storage rest (storage_module sm) = rest sm
  as_storage rest _ = fail fiber 500 (note "invalid storage module type")

  unfoldable pub as_diagnostics : (Diagnostics.Module → Handler F) → HostModule F → Handler F
  unfolding fail
  as_diagnostics rest (diagnostics_module dm) = rest dm
  as_diagnostics rest _ = fail fiber 500 (note "invalid diagnostics module type")

  unfoldable pub as_network : (Network.Module → Handler F) → HostModule F → Handler F
  unfolding fail
  as_network rest (network_module nm) = rest nm
  as_network rest _ = fail fiber 500 (note "invalid network module type")

  unfoldable pub as_firewall : (Network.Module → Handler F) → HostModule F → Handler F
  unfolding fail
  as_firewall rest (firewall_module fm) = rest fm
  as_firewall rest _ = fail fiber 500 (note "invalid firewall module type")

  unfoldable pub with_storage : (Storage.Module → Handler F) → Handler F
  unfolding with_module as_storage
  with_storage rest =
      with_module fiber (codes "storage") "storage module not registered" (λ r. as_storage rest)

  -- POST /api/storage/devices/format
  unfoldable pub post_device_format : Request → Handler F
  unfolding gated with_storage answer_bus
  post_device_format req =
      let object = trim_space (req.form "objectPath") in
      gated fiber authorizer req (codes "storage.device.format") object (
        with_storage λ sm app.
          answer_bus (Storage.format_block bus sm object (req.form "fsType") app.calls) app)

  -- POST /api/storage/devices/unlock
  unfoldable pub post_device_unlock : Request → Handler F
  unfolding gated with_storage answer_bus
  post_device_unlock req =
      let object = trim_space (req.form "objectPath") in
      gated fiber authorizer req (codes "storage.device.unlock") object (
        with_storage λ sm app.
          answer_bus (Storage.unlock_block bus sm object (req.form "passphrase") app.calls) app)

  -- POST /api/systemd/units/:name/:action
  unfoldable pub post_unit_action : Request → Handler F
  unfolding gated with_module as_diagnostics answer_bus
  post_unit_action req =
      gated fiber authorizer req (codes "systemd.unit." ++ req.param "action") (req.param "name") (
        with_module fiber (codes "diagnostics") "diagnostics module not registered" λ r.
          as_diagnostics λ dm app.
            answer_bus
              (Diagnostics.unit_action bus dm (req.param "name") (req.param "action") app.calls)
              app)

  -- POST /api/network/enabled/:state
  unfoldable pub post_network_enabled : Request → Handler F
  unfolding gated with_module as_network answer_bus equal_fold
  post_network_enabled req =
      gated fiber authorizer req (codes "network.global.enable") (req.param "state") (
        with_module fiber (codes "network") "network module not registered" λ r.
          as_network λ nm app.
            answer_bus (Network.set_enabled bus nm (network_state (req.param "state")) app.calls)
              app)

  -- POST /api/firewall/zones/:zone/services/:service/:state
  unfoldable pub post_zone_service : Request → Handler F
  unfolding gated with_module as_firewall answer_bus equal_fold
  post_zone_service req =
      let zone = req.param "zone" in
      let service = req.param "service" in
      let state = req.param "state" in
      gated fiber authorizer req (codes "firewall.zone.service." ++ state)
        (zone ++ codes "/" ++ service)
        (with_module fiber (codes "firewall") "firewall module not registered" λ r.
          as_firewall λ fm app.
            answer_bus (Network.set_service bus fm zone service (service_state state) app.calls)
              app)
