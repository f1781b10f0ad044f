-- ===== src/Server/CloudflareRoutes.antt =====
-- The cloudflare handlers of internal/server/router.go (`registerCloudflareAPI`).
use porcelain.Prelude.{Result, ok, err}
use porcelain.Text.{Text, codes}
use porcelain.Text.Number.{query_limit}
use porcelain.Host.{Host, World}
use porcelain.Policy.{OpaStyleAuthorizer}
use porcelain.Cloudflare
use porcelain.Cloudflare.{CloudflareError, Files}
use porcelain.Server.{
  Request, status_ok, note, cloudflare_error, Fiber, HostModule, cloudflare_module, Handler,
  pre_page, sent, fail, gated, with_module,
}

module _ (fiber : Fiber) (host : Host) (authorizer : OpaStyleAuthorizer) {F : Type 0} where
  unfoldable pub as_cloudflare : (Cloudflare.Module → Handler F) → HostModule F → Handler F
  unfolding fail
  as_cloudflare rest (cloudflare_module cm) = rest cm
  as_cloudflare rest _ = fail fiber 500 (note "invalid cloudflare module type")

  unfoldable pub with_cloudflare : (Cloudflare.Module → Handler F) → Handler F
  unfolding with_module as_cloudflare
  with_cloudflare rest =
      with_module fiber (codes "cloudflare") "cloudflare module not registered"
        (λ r. as_cloudflare rest)

  -- 400 with the error, or `{"status":"ok"}`.
  unfoldable pub answer_tunnel : Result CloudflareError (Unit {0}) × World → Handler F
  unfolding fail
  answer_tunnel (err e, w) app response =
      fail fiber 400 (cloudflare_error e) (record app { world = w }) response
  answer_tunnel (ok _, w) app response =
      sent (record app { world = w }) (fiber.send_json status_ok response)

  -- 400 with the error, or the logs as a page.
  unfoldable pub answer_logs : Result CloudflareError Text × World → Handler F
  unfolding fail
  answer_logs (err e, w) app response =
      fail fiber 400 (cloudflare_error e) (record app { world = w }) response
  answer_logs (ok logs, w) app response =
      sent (record app { world = w }) (fiber.send_string (pre_page logs) response)

  -- POST /api/cloudflare/provision
  unfoldable pub post_provision : Files → Request → Handler F
  unfolding gated with_cloudflare answer_tunnel
  post_provision files req =
      gated fiber authorizer req (codes "cloudflare.tunnel.provision") (codes "global") (
        with_cloudflare λ cm app.
          answer_tunnel
            (Cloudflare.provision_with_token host files cm (req.form "name") (req.form "token")
              (req.form "hostname") (req.form "serviceURL") (req.form "image") app.world)
            app)

  -- GET /api/cloudflare/tunnels/:name/logs
  unfoldable pub get_tunnel_logs : Request → Handler F
  unfolding with_cloudflare answer_logs
  get_tunnel_logs req = with_cloudflare λ cm app.
      answer_logs
        (Cloudflare.tunnel_container_logs host cm (req.param "name")
          (query_limit 120 5000 (req.query "tail")) app.world)
        app

  -- POST /api/cloudflare/tunnels/:name/restart
  unfoldable pub post_tunnel_restart : Request → Handler F
  unfolding gated with_cloudflare answer_tunnel
  post_tunnel_restart req =
      gated fiber authorizer req (codes "cloudflare.tunnel.restart") (req.param "name") (
        with_cloudflare λ cm app.
          answer_tunnel (Cloudflare.restart_tunnel_container host cm (req.param "name") app.world)
            app)
