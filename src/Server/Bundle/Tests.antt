-- ===== src/Server/Bundle/Tests.antt =====
-- A support bundle in an archive that is a list of files.
use porcelain.Prelude.{
  ℕ, Result, arith, eqb, if◌then◌else◌, Bool, true, false, some, List, [], ◌∷◌, ◌++◌, ok, err, ◌≡◌,
  refl,
}
use porcelain.Text.{Text, codes, byte_length}
use porcelain.Text.Dict.{find}
use porcelain.Server.DiagnosticsPage.{DiagnosticsPageData, blank_diagnostics}
use porcelain.Server.Bundle.{
  Packer, Marshal, TimePrint, snapshot_map, text_field, lines_field, modules_field, bundle_of,
}
use porcelain.Server.Bundle.Laws.{Reads, bundle_of_lem}

-- The files so far, and the header of a file that was begun.
data Archive : Type 0 where
  between : List (Text × Text) → Archive
  begun : List (Text × Text) → Text → ℕ → Archive

abbrev start_file : Text → ℕ → Archive → Result Text Archive
start_file name size (between files) = ok (begun files name size)
start_file name size (begun _ _ _) = err (codes "missed writing")

-- A file that is not as long as its header says is refused.
abbrev fill_file : Text → Archive → Result Text Archive
fill_file body (between _) = err (codes "write too long")
fill_file body (begun files name size) =
    if eqb size (byte_length body)
    then ok (between (files ++ (name, body) ∷ []))
    else err (codes "write too long")

abbrev end_files : Archive → Result Text Archive
end_files w = ok w

abbrev end_archive : Archive → Result Text (List (Text × Text))
end_archive (between files) = ok files
end_archive (begun _ _ _) = err (codes "missed writing")

abbrev listed_files : Packer
listed_files = record {
  Writer = Archive;
  Bytes = List (Text × Text);
  new_writer = between [];
  write_header = start_file;
  write = fill_file;
  close_tar = end_files;
  close_gzip = end_archive;
}

abbrev is_between : Archive → Bool
is_between (between _) = true
is_between (begun _ _ _) = false

abbrev files_in : Archive → List (Text × Text)
files_in (between files) = files
files_in (begun files _ _) = files

file_written :
    (name body : Text) (size : ℕ) (w : Archive)
    → is_between w ≡ true
    → size ≡ byte_length body
    → (started : Archive) × (ended : Archive) × (start_file name size w ≡ ok started)
      × (fill_file body started ≡ ok ended)
      × (files_in ended ≡ files_in w ++ (name, body) ∷ [])
      × (is_between ended ≡ true)
file_written name body size (between files) h e =
    let fits : eqb size (byte_length body) ≡ true = ground (arith, e) in
    (begun files name size, between (files ++ (name, body) ∷ []), refl, rw fits refl, refl, refl)
file_written name body size (begun _ _ _) h e = absurd (cc h)

archive_closed :
    (w : Archive)
    → is_between w ≡ true
    → (ended : Archive) × (bytes : List (Text × Text)) × (end_files w ≡ ok ended)
      × (end_archive ended ≡ ok bytes)
      × (bytes ≡ files_in w)
archive_closed (between files) h = (between files, files, refl, refl, refl)
archive_closed (begun _ _ _) h = absurd (cc h)

abbrev listed_files-Reads : Reads listed_files
listed_files-Reads = record {
  IsReady = λ w. is_between w ≡ true;
  files = files_in;
  entries = λ bytes. bytes;
  new_ready = refl;
  new_empty = refl;
  written = file_written;
  closed = archive_closed;
}

abbrev plain_json : Marshal
plain_json = record {
  snapshot_json = λ fields. ok (codes "{}");
  modules_json = λ modules. ok (codes "[]");
}

abbrev fixed_times : TimePrint
fixed_times = record { compact = λ t. codes "T"; rfc3339 = λ t. codes "2025" }

abbrev box_page : DiagnosticsPageData
box_page = record blank_diagnostics { hostname = codes "box" }

bundle_of_example :
    (bytes : List (Text × Text)) × (bundle_of listed_files plain_json fixed_times 1 2 3 box_page
      ≡ ok (bytes, codes "porcelain-diagnostics-" ++ codes "T" ++ codes ".tar.gz"))
    × (bytes
        ≡ (
          codes "manifest.txt",
          codes "Porcelain diagnostics bundle\nGenerated: "
              ++ codes "2025"
              ++ codes "\nHostname: "
              ++ codes "box"
              ++ codes "\n",
        )
          ∷ (codes "snapshot.json", codes "{}")
          ∷ (codes "module-status.json", codes "[]")
          ∷ [])
    × (find (codes "hostname") (snapshot_map (codes "2025") box_page)
        ≡ some (text_field (codes "box")))
    × (find (codes "journal_tail") (snapshot_map (codes "2025") box_page) ≡ some (lines_field []))
    × (find (codes "module_status_list") (snapshot_map (codes "2025") box_page)
        ≡ some (modules_field []))
bundle_of_example =
    bundle_of_lem listed_files listed_files-Reads plain_json fixed_times 1 2 3 box_page (codes "{}")
      (codes "[]") refl refl

-- A packer whose gzip stream fails at its end.
abbrev torn : Packer
torn = record {
  Writer = Archive;
  Bytes = List (Text × Text);
  new_writer = between [];
  write_header = start_file;
  write = fill_file;
  close_tar = end_files;
  close_gzip = λ w. err (codes "short write");
}

tells_failure :
    bundle_of torn plain_json fixed_times 1 2 3 box_page
    ≡ err (codes "close gzip writer: short write")
unfolding bundle_of byte_length
tells_failure = refl
