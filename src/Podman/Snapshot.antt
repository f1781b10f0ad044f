-- ===== src/Podman/Snapshot.antt =====
-- internal/modules/podman/podman.go: the probe of the runtime, the status, and the lists of
-- containers and images on the page.
use porcelain.Prelude.{
  ℕ, Bool, true, false, List, [], ◌∷◌, ◌++◌, Option, none, some, if◌then◌else◌, Result, ok, err,
  is_nil, length,
}
use porcelain.Text.{Text, codes, trim_space, split, split_n}
use porcelain.Text.Decimal.{decimal}
use porcelain.Host.{Host, Outcome, World, exec}
use porcelain.Registry.{healthy, unavailable, Status}
use porcelain.Registry
use porcelain.Podman.{podman, degraded, fake, other, Module, podman_command}

pub record Container : Type 0 where
  pub id : Text
  pub name : Text
  pub image : Text
  pub state : Text
  pub status : Text

pub record Image : Type 0 where
  pub repository : Text
  pub tag : Text
  pub id : Text
  pub size : Text

pub record PageData : Type 0 where
  pub heading : Text
  pub blurb : Text
  pub detail : Text
  pub containers : List Container
  pub images : List Image

-- `New`: whether podman is on the path, and whether the probe ran into its time limit.
unfoldable pub new_module : Host → Bool → Bool → World → Module × World
unfolding exec
new_module host false timed_out w = (record { mode = fake; note = codes "podman not installed" }, w)
new_module host true timed_out w =
    let (out, after) =
      exec host w
        (podman_command (codes "system" ∷ codes "info" ∷ codes "--format" ∷ codes "json" ∷ [])) in
    elim out.failure [
      | none ↦ (record { mode = podman; note = [] }, after)
      | some _ ↦ (
        record {
          mode = degraded;
          note =
              if timed_out
              then codes "podman probe timed out"
              else codes "podman installed but daemon unavailable";
        },
        after,
      )
    ]

-- A note, or the text in place of an empty one.
abbrev note_or : Text → Text → Text
note_or text note = if is_nil note then text else note

unfoldable pub status : Module → Status
status m = elim m.mode [
  | podman ↦ record { health = healthy; detail = codes "podman runtime reachable" }
  | degraded ↦ record {
    health = Registry.degraded;
    detail = note_or (codes "podman partially available") m.note;
  }
  | fake ↦ record {
    health = Registry.degraded;
    detail = note_or (codes "podman not installed") m.note;
  }
  | other ↦ record { health = unavailable; detail = [] }
]

-- A line of five columns; a line of fewer is none.
unfoldable pub read_container : List Text → Option Container
unfolding trim_space
read_container (a ∷ b ∷ c ∷ d ∷ e ∷ []) = some (record {
  id = trim_space a;
  name = trim_space b;
  image = trim_space c;
  state = trim_space d;
  status = trim_space e;
})
read_container _ = none

unfoldable pub read_image : List Text → Option Image
unfolding trim_space
read_image (a ∷ b ∷ c ∷ d ∷ []) = some (record {
  repository = trim_space a;
  tag = trim_space b;
  id = trim_space c;
  size = trim_space d;
})
read_image _ = none

-- The loop over the lines, for rows of `n` columns; blank lines and lines of fewer columns are
-- skipped.
unfoldable pub read_lines : {A : Type 0} → ℕ → (List Text → Option A) → List Text → List A
unfolding split_n
read_lines n read [] = []
read_lines n read (line ∷ lines) =
    let rest = read_lines n read lines in
    let text = trim_space line in
    if is_nil text
    then rest
    else elim (read (split_n text b'|' n)) [ none ↦ rest | some a ↦ a ∷ rest ]

-- The rows of the output of a command, or its error.
unfoldable pub read_output :
    {A : Type 0} → ℕ → (List Text → Option A) → Outcome × World → Result Text (List A) × World
unfolding read_lines split
read_output n read (out, w) = elim out.failure [
  | some e ↦ (err e, w)
  | none ↦ (ok (read_lines n read (split (trim_space out.output) b'\n')), w)
]

unfoldable pub list_containers : Host → World → Result Text (List Container) × World
unfolding read_output read_container
list_containers host w = read_output 5 read_container (
    exec host w (
      podman_command (
        codes "ps"
        ∷ codes "--all"
        ∷ codes "--format"
        ∷ codes "{{.ID}}|{{.Names}}|{{.Image}}|{{.State}}|{{.Status}}"
        ∷ [])))

unfoldable pub list_images : Host → World → Result Text (List Image) × World
unfolding read_output read_image
list_images host w = read_output 4 read_image (
    exec host w (
      podman_command (
        codes "images"
        ∷ codes "--format"
        ∷ codes "{{.Repository}}|{{.Tag}}|{{.ID}}|{{.Size}}"
        ∷ [])))

abbrev pub blank_page : PageData
blank_page = record {
  heading = codes "Containers";
  blurb = codes "Podman runtime, images, and container lifecycle";
  detail = [];
  containers = [];
  images = [];
}

-- The page, the error if there is one, and the commands.
unfoldable pub snapshot : Host → Module → World → (PageData × Option Text) × World
unfolding list_containers list_images
snapshot host m w = elim m.mode [
  | fake ↦ ((record blank_page { detail = note_or (codes "podman not installed") m.note }, none), w)
  | degraded ↦ ((record blank_page { detail = m.note }, none), w)
  | _ ↦
      let (containers, after_containers) = list_containers host w in
      elim containers [
        | err e ↦ ((blank_page, some (codes "list containers: " ++ e)), after_containers)
        | ok cs ↦
            let (images, after) = list_images host after_containers in
            elim images [
              | err e ↦ ((blank_page, some (codes "list images: " ++ e)), after)
              | ok is ↦ (
                (
                  record blank_page {
                    containers = cs;
                    images = is;
                    detail =
                        decimal (length cs)
                        ++ codes " containers, "
                        ++ decimal (length is)
                        ++ codes " images";
                  },
                  none,
                ),
                after,
              )
            ]
      ]
]
