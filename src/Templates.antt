-- ===== src/Templates.antt =====
-- internal/templates: the functions that the templates call, and the engine that holds the pages.
-- Floating-point prints and the parser of templates are parameters. Go's `len` counts bytes; texts
-- here are lists of characters, so the functions on texts are those for ASCII texts.
pub mod Sizes
pub mod Slices
pub mod Pages
mod Tests
use porcelain.Prelude.{
  ℕ, zero, suc, ℤ, pos, negsuc, ◌+◌, ◌-◌, ◌*◌, ◌/◌, ◌%◌, ◌^◌, Bool, true, false, ◌||◌, not, List,
  [], ◌∷◌, ◌++◌, Option, none, some, if◌then◌else◌, Result, ok, err, ltb, leb, length, take, drop,
  is_found,
}
use porcelain.Text.{Text, codes, ◌==◌}
use porcelain.Text.Decimal.{decimal}
use porcelain.Text.Dict.{Dict, find, assign}
use porcelain.Server.Badges.{ModuleNav, NavGroup}

-- The loop of `humanizeBytes` over `n`, `div` and `exp`; each round takes one off the fuel, and
-- `none` means that it ran out. The product wraps around as an `int64` does.
unfoldable pub scale : ℕ → ℕ → ℕ → ℕ → Option (ℕ × ℕ)
scale zero n div exp = if ltb n 1024 then some (div, exp) else none
scale (suc fuel) n div exp =
    let rest = scale fuel (n / 1024) ((div * 1024) % 2 ^ 64) (suc exp) in
    if ltb n 1024 then some (div, exp) else rest

-- `"KMGTPE"[exp]`: an index out of range panics.
unfoldable pub size_letter : ℕ → Option Text
size_letter exp = elim (drop exp (codes "KMGTPE")) [ [] ↦ none | c ∷ _ ↦ some (c ∷ []) ]

-- `quotient b div` is the print of the quotient with one decimal.
module _ (quotient : ℕ → ℕ → Text) where
  -- The line for a number of bytes and what the loop has found.
  unfoldable pub size_line : ℕ → Option (ℕ × ℕ) → Option Text
  unfolding size_letter
  size_line b none = none
  size_line b (some (div, exp)) = elim (size_letter exp) [
    | none ↦ none
    | some letter ↦ some (quotient b div ++ codes " " ++ letter ++ codes "iB")
  ]

  -- Six rounds of the loop are enough for every `int64`.
  unfoldable pub humanize_bytes : ℤ → Option Text
  unfolding scale size_line decimal
  humanize_bytes (negsuc n) = some (codes "-" ++ decimal (suc n) ++ codes " B")
  humanize_bytes (pos b) =
      if ltb b 1024 then some (decimal b ++ codes " B") else size_line b (scale 6 (b / 1024) 1024 0)

-- A duration in nanoseconds that is not negative.
abbrev second : ℕ
second = 1000000000

unfoldable pub humanize_duration : ℕ → Text
unfolding decimal
humanize_duration d =
    if ltb d (60 * second)
    then decimal (d / second) ++ codes "s"
    else if ltb d (3600 * second)
    then decimal (d / (60 * second)) ++ codes "m"
    else if ltb d (24 * 3600 * second)
    then decimal (d / (3600 * second)) ++ codes "h"
    else decimal (d / (24 * 3600 * second)) ++ codes "d"

abbrev pub ltb_int : ℤ → ℤ → Bool
ltb_int (pos a) (pos b) = ltb a b
ltb_int (pos a) (negsuc b) = false
ltb_int (negsuc a) (pos b) = true
ltb_int (negsuc a) (negsuc b) = ltb b a

-- `s[start:end]`, which panics unless 0 ≤ start ≤ end ≤ len(s).
unfoldable pub go_slice : Text → ℤ → ℤ → Option Text
go_slice s (pos a) (pos b) =
    if leb a b then (if leb b (length s) then some (take (b - a) (drop a s)) else none) else none
go_slice s _ _ = none

-- The template function `slice`.
unfoldable pub slice : Text → ℤ → ℤ → Option Text
unfolding go_slice
slice s start end =
    let first = if ltb_int start (pos 0) then pos 0 else start in
    let last = if ltb_int (pos (length s)) end then pos (length s) else end in
    go_slice s (if ltb_int last first then last else first) last

-- The template function `truncate`.
unfoldable pub truncate : Text → ℤ → Text
truncate s (negsuc n) = s
truncate s (pos n) = if leb n 3 || leb (length s) n then s else take (n - 3) s ++ codes "..."

unfoldable pub any_child : Text → List ModuleNav → Bool
unfolding ◌==◌
any_child id [] = false
any_child id (ch ∷ children) = id == ch.id || any_child id children

unfoldable pub nav_group_open : Text → NavGroup → Text
unfolding any_child
nav_group_open id group =
    if id == group.head.id || any_child id group.children then codes "true" else codes "false"

-- The names of the pages, with the files of their templates.
abbrev pub pages : List (Text × Text)
pages =
    (codes "dashboard", codes "dashboard.html")
    ∷ (codes "storage", codes "modules/storage.html")
    ∷ (codes "storage-zfs", codes "modules/zfs.html")
    ∷ (codes "network", codes "modules/network.html")
    ∷ (codes "network-firewall", codes "modules/firewall.html")
    ∷ (codes "network-cloudflare", codes "modules/cloudflare.html")
    ∷ (codes "podman", codes "modules/podman.html")
    ∷ (codes "diagnostics", codes "modules/diagnostics.html")
    ∷ (codes "sensors", codes "modules/sensors.html")
    ∷ []

-- The embedded files; and the parser, for the base layout of a file and for a page on top of it.
pub record Parser : Type 1 where
  pub Template : Type 0
  pub read_file : Text → Result Text Text
  pub parse_base : Text → Text → Result Text Template
  pub parse_page : Template → Text → Result Text Template

module _ (p : Parser) where
  open p use {Template, read_file, parse_base, parse_page}

  -- The body of the loop of `NewEngine`.
  unfoldable pub parse_entry : Text → Text → Text → Result Text Template
  parse_entry base name file = elim (read_file file) [
    | err e ↦ err (codes "read " ++ file ++ codes ": " ++ e)
    | ok body ↦ elim (parse_base file base) [
      | err e ↦ err (codes "parse base for " ++ name ++ codes ": " ++ e)
      | ok template ↦ elim (parse_page template body) [
        | err e ↦ err (codes "parse " ++ name ++ codes ": " ++ e)
        | ok page ↦ ok page
      ]
    ]
  ]

  unfoldable pub parse_pages :
      Text → List (Text × Text) → Dict Template → Result Text (Dict Template)
  unfolding parse_entry assign
  parse_pages base [] parsed = ok parsed
  parse_pages base ((name, file) ∷ rest) parsed = elim (parse_entry base name file) [
    | err e ↦ err e
    | ok page ↦ parse_pages base rest (assign name page parsed)
  ]

  unfoldable pub new_engine : Result Text (Dict Template)
  unfolding parse_pages
  new_engine = elim (read_file (codes "base.html")) [
    | err e ↦ err (codes "read base.html: " ++ e)
    | ok base ↦ parse_pages base pages []
  ]

  unfoldable pub has_page : Dict Template → Text → Bool
  unfolding find
  has_page engine name = is_found (find name engine)

  -- `Render` and `RenderPartial`: the execution of the template of a page, by the name of a block;
  -- `none` is the error for an unknown page.
  unfoldable pub render :
      (Template → Text → Option Text) → Dict Template → Text → Text → Option (Option Text)
  unfolding find
  render execute engine block page = elim (find page engine) [
    | none ↦ none
    | some template ↦ some (execute template block)
  ]
