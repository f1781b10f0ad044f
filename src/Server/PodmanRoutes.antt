-- ===== src/Server/PodmanRoutes.antt =====
-- The podman handlers of internal/server/router.go (`registerPodmanAPI`).
use porcelain.Prelude.{◌++◌, Result, ok, err}
use porcelain.Text.{Text, codes, trim_space, fields}
use porcelain.Text.Number.{query_limit}
use porcelain.Host.{Host, World}
use porcelain.Policy.{OpaStyleAuthorizer}
use porcelain.Podman
use porcelain.Podman.{PodmanError}
use porcelain.Server.{
  Request, status_ok, note, podman_error, Fiber, HostModule, podman_module, Handler, pre_page, sent,
  fail, gated, with_module,
}

module _ (fiber : Fiber) (host : Host) (authorizer : OpaStyleAuthorizer) {F : Type 0} where
  -- The check of the module's type.
  unfoldable pub as_podman : (Podman.Module → Handler F) → HostModule F → Handler F
  unfolding fail
  as_podman rest (podman_module pm) = rest pm
  as_podman rest _ = fail fiber 500 (note "invalid podman module type")

  -- The look-up of the podman module, with the check of its type.
  unfoldable pub with_podman : (Podman.Module → Handler F) → Handler F
  unfolding with_module as_podman
  with_podman rest =
      with_module fiber (codes "podman") "podman module not registered" (λ r. as_podman rest)

  -- 400 with the error, or `{"status":"ok"}`.
  unfoldable pub answer_ok : Result PodmanError (Unit {0}) × World → Handler F
  unfolding fail
  answer_ok (err e, w) app response =
      fail fiber 400 (podman_error e) (record app { world = w }) response
  answer_ok (ok _, w) app response =
      sent (record app { world = w }) (fiber.send_json status_ok response)

  -- 400 with the error, or the output as a page.
  unfoldable pub answer_page : Result PodmanError Text × World → Handler F
  unfolding fail
  answer_page (err e, w) app response =
      fail fiber 400 (podman_error e) (record app { world = w }) response
  answer_page (ok out, w) app response =
      sent (record app { world = w }) (fiber.send_string (pre_page out) response)

  -- POST /api/podman/containers/:id/:action
  unfoldable pub post_container_action : Request → Handler F
  unfolding gated with_podman answer_ok
  post_container_action req =
      gated fiber authorizer req (codes "podman.container." ++ req.param "action") (req.param "id")
        (with_podman λ pm app.
          answer_ok
            (Podman.container_action host pm (req.param "id") (req.param "action") app.world) app)

  -- GET /api/podman/containers/:id/logs
  unfoldable pub get_container_logs : Request → Handler F
  unfolding with_podman answer_page
  get_container_logs req = with_podman λ pm app.
      answer_page
        (Podman.container_logs host pm (req.param "id") (query_limit 100 2000 (req.query "tail"))
          app.world)
        app

  -- POST /api/podman/images/pull
  unfoldable pub post_image_pull : Request → Handler F
  unfolding gated with_podman answer_page
  post_image_pull req = gated fiber authorizer req (codes "podman.image.pull") (codes "global") (
      with_podman λ pm app.
        answer_page (Podman.pull_image host pm (trim_space (req.form "image")) app.world) app)

  -- POST /api/podman/images/build
  unfoldable pub post_image_build : Request → Handler F
  unfolding gated with_podman answer_page
  post_image_build req = gated fiber authorizer req (codes "podman.image.build") (codes "global") (
      with_podman λ pm app.
        answer_page
          (Podman.build_image host pm (trim_space (req.form "contextPath"))
            (trim_space (req.form "dockerfile")) (trim_space (req.form "tag")) app.world)
          app)

  -- POST /api/podman/containers/:id/exec
  unfoldable pub post_container_exec : Request → Handler F
  unfolding gated with_podman answer_page
  post_container_exec req =
      gated fiber authorizer req (codes "podman.container.exec") (req.param "id") (
        with_podman λ pm app.
          answer_page
            (Podman.exec_container host pm (req.param "id")
              (fields (trim_space (req.form "command"))) app.world)
            app)

  -- POST /api/podman/registry/login
  unfoldable pub post_registry_login : Request → Handler F
  unfolding gated with_podman answer_ok
  post_registry_login req =
      gated fiber authorizer req (codes "podman.registry.login") (codes "global") (
        with_podman λ pm app.
          answer_ok
            (Podman.registry_login host pm (req.form "registry") (req.form "username")
              (req.form "password") app.world)
            app)

  -- POST /api/podman/registry/logout
  unfoldable pub post_registry_logout : Request → Handler F
  unfolding gated with_podman answer_ok
  post_registry_logout req =
      gated fiber authorizer req (codes "podman.registry.logout") (codes "global") (
        with_podman
          λ pm app. answer_ok (Podman.registry_logout host pm (req.form "registry") app.world) app)

  module _ (normalize_json : Text → Result Text Text) where
    -- GET /api/podman/containers/:id/inspect
    unfoldable pub get_container_inspect : Request → Handler F
    unfolding with_podman answer_page
    get_container_inspect req = with_podman λ pm app.
        answer_page (Podman.inspect_container host normalize_json pm (req.param "id") app.world) app

    -- GET /api/podman/images/:ref/inspect
    unfoldable pub get_image_inspect : Request → Handler F
    unfolding with_podman answer_page
    get_image_inspect req = with_podman λ pm app.
        answer_page (Podman.inspect_image host normalize_json pm (req.param "ref") app.world) app
