-- ===== src/Cloudflare.antt =====
-- internal/modules/cloudflare: the tunnels of `cloudflared`, and the containers that run them.
-- Files and JSON are parameters. `filepath.Join` is modelled for a home directory that it leaves as
-- it is, which `os.UserHomeDir` gives on every usual system.
pub mod Laws
mod Tests
use porcelain.Prelude.{
  ℕ, Bool, true, false, ◌||◌, ◌&&◌, not, List, [], ◌∷◌, ◌++◌, Option, none, some, if◌then◌else◌,
  Result, ok, err, is_nil, eqb, leb, length,
}
use porcelain.Text.{Text, codes, ◌==◌, trim_space, trim_func, fields}
use porcelain.Text.Decimal.{decimal}
use porcelain.Host.{Host, Command, Outcome, World, command, exec}
use porcelain.Registry.{healthy, degraded, unavailable, Status}

-- The string "present" or "fake"; `other` stands for any other.
pub data Mode : Type 0 where
  present fake other : Mode

pub record Module : Type 0 where
  pub mode : Mode

-- The errors; those of a command carry its trimmed output.
pub data CloudflareError : Type 0 where
  not_installed name_required token_required hostname_required : CloudflareError
  home_failed directory_failed config_failed : Text → CloudflareError
  start_failed logs_failed restart_failed : Text → CloudflareError

pub record Tunnel : Type 0 where
  pub id : Text
  pub name : Text
  pub created_at : Text
  pub status : Text

pub record PageData : Type 0 where
  pub heading : Text
  pub blurb : Text
  pub detail : Text
  pub version : Text
  pub tunnels : List Tunnel

-- The home directory or the error, and the errors of making a directory and of writing a file.
pub record Files : Type 0 where
  pub home : Result Text Text
  pub make_directory : Text → Option Text
  pub write_file : Text → Text → Option Text

-- Whether `exec.LookPath` finds the program.
unfoldable pub new_module : Bool → Module
new_module found = record { mode = if found then present else fake }

unfoldable pub status : Module → Status
status m = elim m.mode [
  | present ↦ record { health = healthy; detail = codes "cloudflared on PATH" }
  | fake ↦ record { health = degraded; detail = codes "cloudflared not installed" }
  | other ↦ record { health = unavailable; detail = [] }
]

abbrev pub is_fake : Mode → Bool
is_fake fake = true
is_fake _ = false

-- The characters that the pattern `[^a-zA-Z0-9_-]+` does not match.
abbrev pub is_safe : ℕ → Bool
is_safe c =
    (leb b'a' c && leb c b'z')
    || (leb b'A' c && leb c b'Z')
    || (leb b'0' c && leb c b'9')
    || eqb c b'_'
    || eqb c b'-'

-- Whether a text goes on with a character that the pattern matches.
abbrev pub goes_on : Text → Bool
goes_on [] = false
goes_on (c ∷ s) = not (is_safe c)

-- `ReplaceAllString(s, "-")`: each run of other characters is one dash, written at its end.
unfoldable pub replace_runs : Text → Text
replace_runs [] = []
replace_runs (c ∷ s) =
    let rest = replace_runs s in
    if is_safe c then c ∷ rest else if goes_on s then rest else b'-' ∷ rest

abbrev pub is_dash : ℕ → Bool
is_dash c = eqb c b'-'

unfoldable pub sanitize_tunnel_name : Text → Text
unfolding trim_space replace_runs trim_func
sanitize_tunnel_name raw =
    let name = trim_space raw in if is_nil name then [] else trim_func is_dash (replace_runs name)

unfoldable pub third_field : Text → List Text → Text
third_field line (_ ∷ _ ∷ version ∷ _) = version
third_field line _ = line

unfoldable pub cloudflared_version : Host → World → Text × World
unfolding fields third_field
cloudflared_version host w =
    let (out, after) = exec host w (command (codes "cloudflared") (codes "--version" ∷ [])) in
    let line = trim_space out.output in
    elim out.failure [ some _ ↦ ([], after) | none ↦ (third_field line (fields line), after) ]

-- The status of a tunnel, "inactive" if there is none.
unfoldable pub shown_tunnels : List Tunnel → List Tunnel
shown_tunnels [] = []
shown_tunnels (t ∷ ts) =
    (if is_nil t.status then record t { status = codes "inactive" } else t) ∷ shown_tunnels ts

-- `parse` is `json.Unmarshal`.
unfoldable pub list_tunnels :
    Host → (Text → Result Text (List Tunnel)) → World → Result Text (List Tunnel) × World
unfolding shown_tunnels
list_tunnels host parse w =
    let (out, after) = exec host w (
      command (codes "cloudflared")
        (codes "tunnel" ∷ codes "list" ∷ codes "--output" ∷ codes "json" ∷ [])) in
    elim out.failure [
      | some _ ↦ (ok [], after)
      | none ↦ elim (parse out.output) [
        | err e ↦ (err (codes "parse tunnel list JSON: " ++ e), after)
        | ok entries ↦ (ok (shown_tunnels entries), after)
      ]
    ]

abbrev blank_page : PageData
blank_page = record {
  heading = codes "Cloudflare";
  blurb = codes "cloudflared tunnel agent and active tunnels";
  detail = [];
  version = [];
  tunnels = [];
}

-- The line that counts the tunnels.
abbrev count_line : List Tunnel → Text
count_line [] = codes "cloudflared installed — no active tunnels"
count_line (t ∷ ts) = decimal (length (t ∷ ts)) ++ codes " tunnel(s) registered"

unfoldable pub snapshot :
    Host → (Text → Result Text (List Tunnel)) → Module → World → PageData × World
unfolding cloudflared_version list_tunnels
snapshot host parse m w =
    if is_fake m.mode
    then (record blank_page { detail = codes "cloudflared not installed" }, w)
    else (let (version, after_version) = cloudflared_version host w in
        let (tunnels, after) = list_tunnels host parse after_version in
        let page = record blank_page { version = version } in
        elim tunnels [
          | err e ↦ (record page { detail = codes "tunnel list failed: " ++ e }, after)
          | ok ts ↦ (record page { tunnels = ts; detail = count_line ts }, after)
        ])

unfoldable pub container_name : Text → Text
container_name tunnel = codes "cloudflared-" ++ tunnel

-- The result of a command whose output is of interest only if it fails.
unfoldable pub checked :
    (Text → CloudflareError) → Outcome × World → Result CloudflareError (Unit {0}) × World
unfolding trim_space
checked fails (out, w) = elim out.failure [
  | none ↦ (ok tt, w)
  | some _ ↦ (err (fails (trim_space out.output)), w)
]

unfoldable pub config_body : Text → Text → Text
config_body hostname service_url =
    codes "ingress:\n  - hostname: "
    ++ hostname
    ++ codes "\n    service: "
    ++ service_url
    ++ codes "\n  - service: http_status:404\n"

-- The command that starts the container of a tunnel.
abbrev pub run_command : Text → Text → Text → Text → Command
run_command tunnel config_path image token = command (codes "podman") (
    codes "run"
    ∷ codes "-d"
    ∷ codes "--name"
    ∷ container_name tunnel
    ∷ codes "--restart"
    ∷ codes "always"
    ∷ codes "-v"
    ∷ (config_path ++ codes ":/etc/cloudflared/config.yml:ro")
    ∷ image
    ∷ codes "tunnel"
    ∷ codes "--config"
    ∷ codes "/etc/cloudflared/config.yml"
    ∷ codes "run"
    ∷ codes "--token"
    ∷ token
    ∷ [])

-- The command that removes it.
abbrev pub remove_command : Text → Command
remove_command tunnel =
    command (codes "podman") (codes "rm" ∷ codes "-f" ∷ container_name tunnel ∷ [])

-- A blank text is replaced; another one is kept with the space around it.
abbrev or_default : Text → Text → Text
or_default default s = if is_nil (trim_space s) then default else s

-- The directory with the files of a tunnel.
unfoldable pub tunnel_directory : Text → Text → Text
tunnel_directory home tunnel = home ++ codes "/.config/porcelain/cloudflare/" ++ tunnel

module _ (host : Host) where
  -- The files of a tunnel are written, its old container is removed, and a new one is started.
  unfoldable pub launch :
      Files → Text → Text → Text → Text → Text → World → Result CloudflareError (Unit {0}) × World
  unfolding checked tunnel_directory config_body container_name
  launch files tunnel token hostname service_url image w = elim files.home [
    | err e ↦ (err (home_failed e), w)
    | ok home ↦
        let directory = tunnel_directory home tunnel in
        let config_path = directory ++ codes "/config.yml" in
        elim (files.make_directory directory) [
          | some e ↦ (err (directory_failed e), w)
          | none ↦
              elim (files.write_file config_path
                (config_body (trim_space hostname) (trim_space service_url))) [
                  | some e ↦ (err (config_failed e), w)
                  | none ↦
                      let (_, removed) = exec host w (remove_command tunnel) in
                      checked start_failed
                        (exec host removed (run_command tunnel config_path image token))
                ]
        ]
  ]

  unfoldable pub provision_with_token :
      Files
      → Module
      → Text
      → Text
      → Text
      → Text
      → Text
      → World
      → Result CloudflareError (Unit {0}) × World
  unfolding launch sanitize_tunnel_name
  provision_with_token files m tunnel_name token hostname service_url image w =
      let tunnel = sanitize_tunnel_name tunnel_name in
      let secret = trim_space token in
      if is_fake m.mode
      then (err not_installed, w)
      else if is_nil tunnel
      then (err name_required, w)
      else if is_nil secret
      then (err token_required, w)
      else if is_nil (trim_space hostname)
      then (err hostname_required, w)
      else launch files tunnel secret hostname
          (or_default (codes "http://host.containers.internal:8080") service_url)
          (or_default (codes "docker.io/cloudflare/cloudflared:latest") image) w

  -- The result of the logs; a tail of 0 stands for every tail that is not positive.
  unfoldable pub tunnel_container_logs :
      Module → Text → ℕ → World → Result CloudflareError Text × World
  unfolding sanitize_tunnel_name container_name
  tunnel_container_logs m tunnel_name tail w =
      let tunnel = sanitize_tunnel_name tunnel_name in
      let lines = if eqb tail 0 then 100 else tail in
      if is_nil tunnel
      then (err name_required, w)
      else (let (out, after) = exec host w (
            command (codes "podman")
              (codes "logs" ∷ codes "--tail" ∷ decimal lines ∷ container_name tunnel ∷ [])) in
          elim out.failure [
            | some _ ↦ (err (logs_failed (trim_space out.output)), after)
            | none ↦ (ok out.output, after)
          ])

  unfoldable pub restart_tunnel_container :
      Module → Text → World → Result CloudflareError (Unit {0}) × World
  unfolding sanitize_tunnel_name container_name checked
  restart_tunnel_container m tunnel_name w =
      let tunnel = sanitize_tunnel_name tunnel_name in
      if is_nil tunnel
      then (err name_required, w)
      else checked restart_failed
          (exec host w (command (codes "podman") (codes "restart" ∷ container_name tunnel ∷ [])))
