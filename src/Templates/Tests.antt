-- ===== src/Templates/Tests.antt =====
-- The template functions and the engine, at concrete arguments.
use porcelain.Prelude.{
  ℕ, pos, negsuc, ◌≤◌, ◌*◌, ◌+◌, ◌^◌, ◌<◌, ◌/◌, none, some, ok, ◌≡◌, ◌↔◌, refl, arith,
}
use porcelain.Text.{Text, codes}
use porcelain.Text.Dict.{Dict}
use porcelain.Templates.{scale, slice, Parser, new_engine, parse_pages, parse_entry, has_page}
use porcelain.Templates.Sizes.{scale_ends}
use porcelain.Templates.Slices.{slice-eq-none_iff}
use porcelain.Templates.Pages.{rendered, new_engine-has_page}
use porcelain.Text.Sort.{listed}

scale_ends_example :
    (div : ℕ) × (exp : ℕ) × (scale 6 (5000000 / 1024) 1024 0 ≡ some (div, exp))
    × (exp ≤ 5)
    × (div ≡ 1024 ^ (exp + 1))
    × (div ≤ 5000000)
    × (5000000 < div * 1024)
scale_ends_example = scale_ends 5000000 (omega arith) (omega arith)

slice-eq-none_iff_example :
    (slice (codes "sda") (pos 0) (negsuc 0) ≡ none) ↔ ((n : ℕ) × (negsuc 0 ≡ negsuc n))
slice-eq-none_iff_example = slice-eq-none_iff (codes "sda") (pos 0) (negsuc 0)

-- A parser whose templates are the texts of the pages.
abbrev plain : Parser
plain = record {
  Template = Text;
  read_file = λ file. ok file;
  parse_base = λ file base. ok base;
  parse_page = λ template body. ok body;
}

-- The engine with a page for each entry of the table.
built : (engine : Dict Text) × (new_engine plain ≡ ok engine)
unfolding new_engine parse_pages parse_entry
built = (_, refl)

new_engine-has_page_example :
    has_page plain built.0 (codes "storage-zfs") ≡ listed (codes "storage-zfs") rendered
new_engine-has_page_example = new_engine-has_page plain built.0 (codes "storage-zfs") built.1
