-- ===== src/Podman/Tests.antt =====
-- Runs of the podman operations, and their theorems at concrete calls.
use porcelain.Prelude.{[], ◌∷◌, none, ok, err, ◌≡◌, ◌≢◌, refl, map, ◌⊎◌}
use porcelain.Text.{codes, ◌==◌, trim_space, to_lower}
use porcelain.Host.{Host, command}
use porcelain.Podman.{
  Module, podman, container_action, container_required, unsupported_action, build_image,
  registry_login, podman_command, container_logs,
}
use porcelain.Podman.Laws.{IsVerb, container_action_safe, visible, registry_login_hides_password}

abbrev quiet : Host
quiet = record { run = λ w c. record { output = []; failure = none }; now = λ w. 0 }

abbrev installed : Module
installed = record { mode = podman; note = [] }

runs :
    (container_action quiet installed (codes "web ") (codes " Stop") []
      ≡ (ok tt, podman_command (codes "stop" ∷ codes "web" ∷ []) ∷ []))
    × (container_action quiet installed (codes "web") (codes "rm") []
        ≡ (err (unsupported_action (codes "rm")), []))
    × (container_action quiet installed [] (codes "stop") [] ≡ (err container_required, []))
    × (build_image quiet installed (codes ".") [] (codes "t") []
        ≡ (ok [], podman_command (codes "build" ∷ codes "-t" ∷ codes "t" ∷ codes "." ∷ []) ∷ []))
    × (container_logs quiet installed (codes "web") 0 [] ≡ (
      ok [],
      podman_command (codes "logs" ∷ codes "--tail" ∷ codes "100" ∷ codes "web" ∷ []) ∷ [],
    ))
unfolding container_action build_image container_logs trim_space to_lower ◌==◌
runs = (refl, refl, refl, refl, refl)

container_action_safe_example :
    ((container_action quiet installed (codes "web") (codes "stop") []).1 ≡ [])
      × ((container_action quiet installed (codes "web") (codes "stop") []).0 ≢ ok tt)
    ⊎ ((container_action quiet installed (codes "web") (codes "stop") []).1
        ≡ command
            (codes "podman")
            (to_lower (trim_space (codes "stop")) ∷ trim_space (codes "web") ∷ [])
          ∷ [])
      × IsVerb (to_lower (trim_space (codes "stop")))
      × (trim_space (codes "web") ≢ [])
container_action_safe_example =
    container_action_safe quiet installed (codes "web") (codes "stop") []

registry_login_hides_password_example :
    map visible (registry_login quiet installed (codes "quay.io") (codes "ann") (codes "a") []).1
    ≡ map visible (registry_login quiet installed (codes "quay.io") (codes "ann") (codes "b") []).1
registry_login_hides_password_example =
    registry_login_hides_password quiet installed (codes "quay.io") (codes "ann") (codes "a")
      (codes "b") [] (cc) (cc)
