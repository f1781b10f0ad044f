-- ===== src/Server/Gate.antt =====
-- What the gate in front of the write handlers of internal/server/router.go achieves.
use porcelain.Prelude.{
  String, true, false, [], ◌∷◌, ◌++◌, Option, none, some, if◌then◌else◌, Bool-cases, inl, inr,
  Result, ok, err, ◌≡◌, ◌≢◌, refl, subst,
}
use porcelain.Text.{Text, codes, trim_space, to_lower}
use porcelain.Host.{World, Host, Floats}
use porcelain.Policy.{Decision, PolicyError, OpaStyleAuthorizer, authorize}
use porcelain.Registry.{Registry, get}
use porcelain.Podman
use porcelain.Podman.{is_fake, is_action}
use porcelain.Podman.Laws.{action_command, container_action_runs}
use porcelain.Zfs
use porcelain.Zfs.Commands
use porcelain.Zfs.Commands.Laws.{destroy_pool-Runs}
use porcelain.Server.ZfsRoutes.{with_zfs, as_zfs, answer, delete_pool}
use porcelain.Server.{
  Request, Body, policy_denied, policy_error, status_ok, Response, Fiber, HostModule, podman_module,
  zfs_module, App, Reply, Handler, write_input, send_status, authorize_write, gated, unless_error,
  with_module,
}
use porcelain.Server.PodmanRoutes.{with_podman, as_podman, answer_ok, post_container_action}

-- What the documentation of the web framework says of `SendString` and `JSON` on these bodies:
-- they set the body of the response and succeed.
pub record Sends (fiber : Fiber) : Type 0 where
  pub string_sent :
      (body : Body) (r : Response) → fiber.send_string body r ≡ (none, record r { body = body })
  pub json_sent :
      (body : Body) (r : Response) → fiber.send_json body r ≡ (none, record r { body = body })

-- The response after the gate, from what the policy says.
abbrev pub judged : Result PolicyError Decision → Response → Response
judged (err e) response = record { status = 500; body = policy_error e }
judged (ok decision) response =
    if decision.allowed
    then response
    else record { status = 403; body = policy_denied decision.reason }

module _ (fiber : Fiber) (authorizer : OpaStyleAuthorizer) (req : Request) (action resource : Text)
    (response : Response) {F : Type 0} (rest : Handler F) (app : App F) where
  -- If sending a text succeeds, then whatever the policy says, to allow, to deny or that it
  -- fails, a write handler goes on behind the gate; what the gate changes is the response so
  -- far.
  pub gated_runs :
      Sends fiber
      → gated fiber authorizer req action resource rest app response
        ≡ rest app (judged (authorize authorizer (write_input req action resource)) response)
  unfolding gated authorize_write send_status unless_error
  gated_runs sends =
      elim (authorize authorizer (write_input req action resource))
        as (λ verdict.
          unless_error fiber rest app (elim verdict [
            | err e ↦ send_status fiber 500 (policy_error e) response
            | ok decision ↦
                if decision.allowed
                then (none, response)
                else send_status fiber 403 (policy_denied decision.reason) response
          ])
          ≡ rest app (judged verdict response)) [
            | err e ↦
                rw (sends.string_sent (policy_error e) (record response { status = 500 })) refl
            | ok decision ↦ elim (Bool-cases decision.allowed) [
              | inl e ↦ rw e refl
              | inr e ↦
                  rw
                    (
                      e,
                      sends.string_sent (policy_denied decision.reason)
                          (record response { status = 403 }),
                    )
                    refl
            ]
          ]

  pub gated_denied :
      {reason : String}
      → Sends fiber
      → authorize authorizer (write_input req action resource)
        ≡ ok (record { allowed = false; reason = reason })
      → gated fiber authorizer req action resource rest app response
        ≡ rest app (record { status = 403; body = policy_denied reason })
  gated_denied sends denied = rw (gated_runs sends, denied)

-- The podman module of the program.
abbrev pub HasPodman : {F : Type 0} → App F → Podman.Module → Type 0
HasPodman {F} app pm =
    (r : Registry (HostModule F)) × (app.registry ≡ some r)
    × (get r (codes "podman") ≡ some (podman_module pm))

module _ (fiber : Fiber) (host : Host) (authorizer : OpaStyleAuthorizer) {F : Type 0} where
  with_module_lem :
      (id : Text) (missing : String) (rest : Registry (HostModule F) → HostModule F → Handler F)
      (r : Registry (HostModule F)) (m : HostModule F) (app : App F) (response : Response)
      → get r id ≡ some m
      → with_module fiber id missing rest (record app { registry = some r }) response
        ≡ rest r m (record app { registry = some r }) response
  unfolding with_module
  with_module_lem id missing rest r m app response found = rw (found, with_module)

  with_podman_lem :
      (rest : Podman.Module → Handler F) (pm : Podman.Module) (app : App F) (response : Response)
      → HasPodman app pm
      → with_podman fiber host authorizer rest app response ≡ rest pm app response
  unfolding with_podman
  with_podman_lem rest pm app response (r, known, found) =
      let same : app ≡ record app { registry = some r } = λ i. record app { registry = known i } in
      rw same (
        with_module_lem _ _ (λ r'. as_podman fiber host authorizer rest) r (podman_module pm) app
          response found)

  -- The error and the commands of a reply: it has no error, and these are all that were run.
  abbrev pub EndsWith : Option (Reply F) → World → Type 0
  EndsWith none w = ⊥
  EndsWith (some reply) w = (reply.error ≡ none) × (reply.app.world ≡ w)

  answer_ok-EndsWith :
      (result : Result Podman.PodmanError (Unit {0}) × World) (app : App F) (response : Response)
      → Sends fiber
      → EndsWith (answer_ok fiber host authorizer result app response) result.1
  unfolding answer_ok send_status
  answer_ok-EndsWith (ok _, w) app response sends =
      rw (sends.json_sent status_ok response) (refl, refl)
  answer_ok-EndsWith (err e, w) app response sends =
      rw (sends.string_sent _ (record response { status = 400 })) (refl, refl)

  -- If sending a text succeeds, and the podman module is registered and has podman, a request
  -- that the policy denies still makes the server start, stop or restart the container: for a
  -- valid action on a named container the command is run, nothing else is, and the handler
  -- returns no error.
  pub post_container_action_denied :
      (req : Request) (app : App F) (response : Response) (pm : Podman.Module) {reason : String}
      → Sends fiber
      → HasPodman app pm
      → is_fake pm.mode ≡ false
      → is_action (to_lower (trim_space (req.param "action"))) ≡ true
      → trim_space (req.param "id") ≢ []
      → authorize authorizer
          (write_input req (codes "podman.container." ++ req.param "action") (req.param "id"))
        ≡ ok (record { allowed = false; reason = reason })
      → EndsWith
          (post_container_action fiber host authorizer req app response)
          (action_command (req.param "id") (req.param "action") ∷ app.world)
  unfolding post_container_action
  post_container_action_denied req app response pm sends known real valid named denied =
      rw (gated_denied fiber authorizer req _ _ response _ app sends denied) (
        rw
          (with_podman_lem
            (λ pm' app'.
              answer_ok fiber host authorizer
                (Podman.container_action host pm' (req.param "id") (req.param "action") app'.world)
                app')
            pm app _ known)
          (subst (EndsWith _)
            (container_action_runs host pm (req.param "id") (req.param "action") app.world real
              valid named)
            (answer_ok-EndsWith _ app _ sends)))

module _ (fiber : Fiber) (host : Host) (authorizer : OpaStyleAuthorizer) (fl : Floats) where
  open fl use {Float, zero_float}

  abbrev pub HasZfs : App Float → Zfs.Module Float → Type 0
  HasZfs app zm =
      (r : Registry (HostModule Float)) × (app.registry ≡ some r)
      × (get r (codes "zfs") ≡ some (zfs_module zm))

  with_zfs_lem :
      (rest : Registry (HostModule Float) → Zfs.Module Float → Handler Float)
      (zm : Zfs.Module Float) (app : App Float) (response : Response) (h : HasZfs app zm)
      → with_zfs fiber host authorizer fl rest app response ≡ rest h.0 zm app response
  unfolding with_zfs
  with_zfs_lem rest zm app response (r, known, found) =
      let same : app ≡ record app { registry = some r } = λ i. record app { registry = known i } in
      rw same (
        with_module_lem fiber host authorizer _ _ (as_zfs fiber host authorizer fl rest) r
          (zfs_module zm) app response found)

  answer-EndsWith :
      (r : Registry (HostModule Float)) (result : Result Commands.ZfsError (Unit {0}))
      (zm : Zfs.Module Float) (w : World) (app : App Float) (response : Response)
      → Sends fiber
      → EndsWith fiber host authorizer
          (answer fiber host authorizer fl r app (some (result, zm, w)) response)
          w
  unfolding answer send_status
  answer-EndsWith r (ok _) zm w app response sends =
      rw (sends.json_sent status_ok response) (refl, refl)
  answer-EndsWith r (err e) zm w app response sends =
      rw (sends.string_sent _ (record response { status = 400 })) (refl, refl)

  -- If sending a text succeeds, and the ZFS module is registered, is not locked and has
  -- `zpool`, a request that the policy denies still destroys the pool: for a pool with a name,
  -- `zpool destroy` is run, nothing else is, and the handler returns no error.
  pub delete_pool_denied :
      (req : Request) (app : App Float) (response : Response) (zm : Zfs.Module Float)
      {reason : String}
      → Sends fiber
      → HasZfs app zm
      → zm.locked ≡ false
      → Commands.is_fake zm.mode ≡ false
      → trim_space (req.param "name") ≢ []
      → authorize authorizer (write_input req (codes "zfs.pool.destroy") (req.param "name"))
        ≡ ok (record { allowed = false; reason = reason })
      → EndsWith fiber host authorizer
          (delete_pool fiber host authorizer fl req app response)
          (Commands.zpool (codes "destroy" ∷ trim_space (req.param "name") ∷ []) ∷ app.world)
  unfolding delete_pool
  delete_pool_denied req app response zm sends has free real named denied =
      rw
        (
          gated_denied fiber authorizer req _ _ response _ app sends denied,
          with_zfs_lem
              (λ r zm' app'.
                answer fiber host authorizer fl r app'
                  (Commands.destroy_pool zero_float host (req.param "name") zm' app'.world))
              zm app _ has,
          destroy_pool-Runs zero_float host (req.param "name") zm app.world free real named,
        )
        (answer-EndsWith has.0 _ _ _ app _ sends)
