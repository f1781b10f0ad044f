-- ===== src/Podman/Laws.antt =====
-- What the operations of internal/modules/podman/podman.go run on the host.
use porcelain.Prelude.{
  true, false, List, [], ◌∷◌, none, ok, ◌≡◌, ◌≢◌, arith, ◌⊎◌, ◌↔◌, map, inl, inr, refl, Bool-cases,
}
use porcelain.Text.{Text, codes, ◌==◌, trim_space, to_lower}
use porcelain.Text.Affix.{eq_iff, eq_sound}
use porcelain.Host.{Command, World, Host, command}
use porcelain.Podman.{Module, is_fake, is_action, podman_command, container_action, registry_login}

-- The command of a lifecycle action.
abbrev pub action_command : Text → Text → Command
action_command container_id action =
    podman_command (to_lower (trim_space action) ∷ trim_space container_id ∷ [])

-- The verbs of a lifecycle.
abbrev pub IsVerb : Text → Type 0
IsVerb verb = (verb ≡ codes "start") ⊎ (verb ≡ codes "stop") ⊎ (verb ≡ codes "restart")

is_action_sound : (verb : Text) → is_action verb ≡ true → IsVerb verb
is_action_sound verb h = elim (Bool-cases (verb == codes "start")) [
  | inl e ↦ inl (eq_sound verb (codes "start") e)
  | inr a ↦ elim (Bool-cases (verb == codes "stop")) [
    | inl e ↦ inr (inl (eq_sound verb (codes "stop") e))
    | inr b ↦ inr (inr (eq_sound verb (codes "restart") (ground (arith, a, b, h))))
  ]
]

module _ (host : Host) (m : Module) (container_id action : Text) (w : World) where
  -- A lifecycle action succeeds exactly when podman is there, the action is start, stop or
  -- restart, the container is named, and the command succeeds.
  pub container_action-eq-ok_iff : ((container_action host m container_id action w).0 ≡ ok tt) ↔ (
      (is_fake m.mode ≡ false)
      × (is_action (to_lower (trim_space action)) ≡ true)
      × (trim_space container_id ≢ [])
      × ((host.run w (action_command container_id action)).failure ≡ none))
  unfolding container_action
  container_action-eq-ok_iff = ground (arith, eq_iff (trim_space container_id) [])

  -- Whatever it is asked for, a lifecycle action runs nothing and fails, or runs one command: `podman`
  -- with the verb that was asked for, trimmed and in lower case, which is start, stop or restart, and
  -- the trimmed identifier, which is not empty.
  pub container_action_safe :
      ((container_action host m container_id action w).1 ≡ w)
        × ((container_action host m container_id action w).0 ≢ ok tt)
      ⊎ ((container_action host m container_id action w).1
          ≡ command (codes "podman") (to_lower (trim_space action) ∷ trim_space container_id ∷ [])
            ∷ w)
        × IsVerb (to_lower (trim_space action))
        × (trim_space container_id ≢ [])
  unfolding container_action
  container_action_safe =
      let verb = to_lower (trim_space action) in
      elim (Bool-cases (is_fake m.mode)) [
        | inl e ↦ inl (rw (container_action, e) (refl, λ f. cc f))
        | inr real ↦ elim (Bool-cases (is_action verb)) [
          | inr e ↦ inl (rw (container_action, real, e) (refl, λ f. cc f))
          | inl known ↦ elim (Bool-cases (trim_space container_id == [])) [
            | inl e ↦ inl (rw (container_action, real, known, e) (refl, λ f. cc f))
            | inr e ↦ inr (
              ground arith,
              is_action_sound verb known,
              λ f. cc (e, (eq_iff (trim_space container_id) []).1 f),
            )
          ]
        ]
      ]

  -- A valid action on a named container is run.
  pub container_action_runs :
      is_fake m.mode ≡ false
      → is_action (to_lower (trim_space action)) ≡ true
      → trim_space container_id ≢ []
      → (container_action host m container_id action w).1 ≡ action_command container_id action ∷ w
  unfolding container_action
  container_action_runs real valid named = ground (arith, eq_iff (trim_space container_id) [])

-- What other users of the host can see of a command: not its standard input.
abbrev pub visible : Command → Text × List Text
visible c = (c.program, c.args)

-- What a login shows of itself on the command line does not depend on the password, among
-- passwords that are not empty.
pub registry_login_hides_password :
    (host : Host) (m : Module) (registry username p q : Text) (w : World)
    → p ≢ []
    → q ≢ []
    → map visible (registry_login host m registry username p w).1
      ≡ map visible (registry_login host m registry username q w).1
unfolding registry_login
registry_login_hides_password host m registry username p q w hp hq =
    ground (arith, eq_iff p [], eq_iff q [])
