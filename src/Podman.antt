-- ===== src/Podman.antt =====
-- internal/modules/podman/podman.go: the module and the operations that run `podman`.
pub mod Laws
pub mod Snapshot
mod Tests
use porcelain.Prelude.{
  ℕ, Bool, true, false, ◌||◌, not, List, [], ◌∷◌, ◌++◌, Option, none, some, if◌then◌else◌, Result,
  ok, err, is_nil, eqb,
}
use porcelain.Text.{Text, codes, ◌==◌, trim_space, to_lower}
use porcelain.Text.Decimal.{decimal}
use porcelain.Host.{Command, Outcome, World, Host, command, exec}

-- The modes that `New` gives are the first three; `other` stands for any other string.
pub data Mode : Type 0 where
  podman degraded fake other : Mode

pub record Module : Type 0 where
  pub mode : Mode
  pub note : Text

-- The errors; those of a command carry its trimmed output or, if that is blank, its error.
pub data PodmanError : Type 0 where
  not_installed container_required image_required command_required : PodmanError
  context_required login_required registry_required : PodmanError
  unsupported_action : Text → PodmanError
  action_failed : Text → Text → Text → PodmanError
  logs_failed inspect_failed image_inspect_failed exec_failed pull_failed : Text → PodmanError
  build_failed login_failed logout_failed json_failed : Text → PodmanError

abbrev pub is_fake : Mode → Bool
is_fake fake = true
is_fake _ = false

abbrev pub is_action : Text → Bool
is_action action = action == codes "start" || action == codes "stop" || action == codes "restart"

abbrev pub podman_command : List Text → Command
podman_command args = command (codes "podman") args

-- The text that the error of a failed command shows.
unfoldable pub failure_text : Text → Text → Text
failure_text output message = let text = trim_space output in if text == [] then message else text

-- The arguments of `podman build`.
unfoldable pub flag : Text → Text → List Text → List Text
flag name value rest = let v = trim_space value in if v == [] then rest else name ∷ v ∷ rest

unfoldable pub build_args : Text → Text → Text → List Text
unfolding flag
build_args context dockerfile tag =
    codes "build" ∷ flag (codes "-f") dockerfile (flag (codes "-t") tag (context ∷ []))

module _ (host : Host) where
  abbrev pub Reply : Type 0
  Reply = Result PodmanError Text × World

  -- Runs a command; the result is its output as it is.
  unfoldable pub invoke : Command → (Text → PodmanError) → World → Reply
  unfolding exec failure_text
  invoke c fails w =
      let answer = exec host w c in
      elim answer.0.failure [
        | some message ↦ (err (fails (failure_text answer.0.output message)), answer.1)
        | none ↦ (ok answer.0.output, answer.1)
      ]

  -- A result with no text.
  abbrev pub done : Reply → Result PodmanError (Unit {0}) × World
  done (ok _, w) = (ok tt, w)
  done (err e, w) = (err e, w)

  unfoldable pub container_action :
      Module → Text → Text → World → Result PodmanError (Unit {0}) × World
  unfolding invoke
  container_action m container_id action w =
      let verb = to_lower (trim_space action) in
      let container = trim_space container_id in
      if is_fake m.mode
      then (err not_installed, w)
      else if not (is_action verb)
      then (err (unsupported_action verb), w)
      else if container == []
      then (err container_required, w)
      else done (invoke (podman_command (verb ∷ container ∷ [])) (action_failed verb container) w)

  -- A tail of 0 stands for every tail that is not positive.
  unfoldable pub container_logs : Module → Text → ℕ → World → Reply
  unfolding invoke decimal
  container_logs m container_id tail w =
      let container = trim_space container_id in
      let lines = if eqb tail 0 then 100 else tail in
      if is_fake m.mode
      then (err not_installed, w)
      else if container == []
      then (err container_required, w)
      else invoke (podman_command (codes "logs" ∷ codes "--tail" ∷ decimal lines ∷ container ∷ []))
          logs_failed w

  unfoldable pub exec_container : Module → Text → List Text → World → Reply
  unfolding invoke
  exec_container m container_id line w =
      let container = trim_space container_id in
      if is_fake m.mode
      then (err not_installed, w)
      else if container == []
      then (err container_required, w)
      else if is_nil line
      then (err command_required, w)
      else invoke (podman_command (codes "exec" ∷ container ∷ line)) exec_failed w

  unfoldable pub pull_image : Module → Text → World → Reply
  unfolding invoke
  pull_image m image_ref w =
      let image = trim_space image_ref in
      if is_fake m.mode
      then (err not_installed, w)
      else if image == []
      then (err image_required, w)
      else invoke (podman_command (codes "pull" ∷ image ∷ [])) pull_failed w

  unfoldable pub build_image : Module → Text → Text → Text → World → Reply
  unfolding invoke build_args
  build_image m context_path dockerfile_path tag w =
      let context = trim_space context_path in
      if is_fake m.mode
      then (err not_installed, w)
      else if context == []
      then (err context_required, w)
      else invoke (podman_command (build_args context dockerfile_path tag)) build_failed w

  -- The password goes to the standard input of the command.
  unfoldable pub registry_login :
      Module → Text → Text → Text → World → Result PodmanError (Unit {0}) × World
  unfolding invoke
  registry_login m registry username password w =
      let site = trim_space registry in
      let user = trim_space username in
      let c : Command = record {
        program = codes "podman";
        args = codes "login" ∷ codes "--username" ∷ user ∷ codes "--password-stdin" ∷ site ∷ [];
        input = some password;
      } in
      if is_fake m.mode
      then (err not_installed, w)
      else if site == [] || user == [] || password == []
      then (err login_required, w)
      else done (invoke c login_failed w)

  unfoldable pub registry_logout : Module → Text → World → Result PodmanError (Unit {0}) × World
  unfolding invoke
  registry_logout m registry w =
      let site = trim_space registry in
      if is_fake m.mode
      then (err not_installed, w)
      else if site == []
      then (err registry_required, w)
      else done (invoke (podman_command (codes "logout" ∷ site ∷ [])) logout_failed w)

  -- `json.Unmarshal` and `json.MarshalIndent` of an inspection, as one function that may fail.
  module _ (normalize_json : Text → Result Text Text) where
    abbrev pub normalized : Reply → Reply
    normalized (ok out, w) = elim (normalize_json out) [
      | ok text ↦ (ok text, w)
      | err message ↦ (err (json_failed message), w)
    ]
    normalized (err e, w) = (err e, w)

    unfoldable pub inspect_container : Module → Text → World → Reply
    unfolding invoke
    inspect_container m container_id w =
        let container = trim_space container_id in
        if is_fake m.mode
        then (err not_installed, w)
        else if container == []
        then (err container_required, w)
        else normalized
            (invoke (podman_command (codes "inspect" ∷ container ∷ [])) inspect_failed w)

    unfoldable pub inspect_image : Module → Text → World → Reply
    unfolding invoke
    inspect_image m image_ref w =
        let image = trim_space image_ref in
        if is_fake m.mode
        then (err not_installed, w)
        else if image == []
        then (err image_required, w)
        else normalized (
            invoke (podman_command (codes "image" ∷ codes "inspect" ∷ image ∷ []))
              image_inspect_failed w)
