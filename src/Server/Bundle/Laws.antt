-- ===== src/Server/Bundle/Laws.antt =====
-- internal/server/router.go: what a support bundle holds.
use porcelain.Prelude.{ℕ, List, [], ◌∷◌, ◌++◌, ok, some, ◌≡◌, refl}
use porcelain.Text.{Text, codes, byte_length, ◌==◌}
use porcelain.Text.Dict.{find}
use porcelain.Server.DiagnosticsPage.{DiagnosticsPageData}
use porcelain.Server.Bundle.{
  Packer, Marshal, TimePrint, proceed, manifest, snapshot_map, text_field, lines_field,
  modules_field, add_file, pack, bundle_of,
}

-- What a writer in memory and a reader do. Between two files (`IsReady`) a file may be written whose
-- header has its size in bytes, and a reader finds it behind the files before it; and the archive may
-- be closed. Nothing is said of a file of another size.
pub record Reads (packer : Packer) : Type 1 where
  pub IsReady : packer.Writer → Type 0
  pub files : packer.Writer → List (Text × Text)
  pub entries : packer.Bytes → List (Text × Text)
  pub new_ready : IsReady packer.new_writer
  pub new_empty : files packer.new_writer ≡ []
  pub written :
      (name body : Text) (size : ℕ) (w : packer.Writer)
      → IsReady w
      → size ≡ byte_length body
      → (started : packer.Writer) × (ended : packer.Writer) × (packer.write_header name size w
          ≡ ok started)
        × (packer.write body started ≡ ok ended)
        × (files ended ≡ files w ++ (name, body) ∷ [])
        × IsReady ended
  pub closed :
      (w : packer.Writer)
      → IsReady w
      → (ended : packer.Writer) × (bytes : packer.Bytes) × (packer.close_tar w ≡ ok ended)
        × (packer.close_gzip ended ≡ ok bytes)
        × (entries bytes ≡ files w)

module _ (packer : Packer) (reads : Reads packer) where
  open reads use {IsReady, files, entries, new_ready, new_empty, written, closed}

  add_file_lem :
      (name body : Text) (w : packer.Writer)
      → IsReady w
      → (ended : packer.Writer) × (add_file packer name body w ≡ ok ended)
        × (files ended ≡ files w ++ (name, body) ∷ [])
        × IsReady ended
  unfolding add_file
  add_file_lem name body w ready =
      let (started, ended, h, k, f, r) = written name body (byte_length body) w ready refl in
      (ended, rw (add_file, h) k, f, r)

  pack_lem :
      (text snapshot modules : Text)
      → (bytes : packer.Bytes) × (pack packer text snapshot modules ≡ ok bytes)
        × (entries bytes
            ≡ (codes "manifest.txt", text)
              ∷ (codes "snapshot.json", snapshot)
              ∷ (codes "module-status.json", modules)
              ∷ [])
  unfolding pack proceed
  pack_lem text snapshot modules =
      let (w1, h1, f1, r1) = add_file_lem (codes "manifest.txt") text packer.new_writer new_ready in
      let (w2, h2, f2, r2) = add_file_lem (codes "snapshot.json") snapshot w1 r1 in
      let (w3, h3, f3, r3) = add_file_lem (codes "module-status.json") modules w2 r2 in
      let (w4, bytes, h4, h5, f4) = closed w3 r3 in
      (bytes, rw (pack, h1, h2, h3, h4, h5) refl, rw (f4, f3, f2, f1, new_empty) refl)

  -- If the JSON can be written, and the archive keeps each file whose header has its size in bytes,
  -- there is a bundle. It holds, in this order,
  -- the manifest with the time and the host's name, the JSON of the map of the page, in which the
  -- host's name, the lines of the journal and the statuses stand under their keys, and the JSON of the
  -- statuses.
  pub bundle_of_lem :
      (marshal : Marshal) (times : TimePrint) (named generated dated : ℕ)
      (page : DiagnosticsPageData) (snapshot modules : Text)
      → marshal.snapshot_json (snapshot_map (times.rfc3339 generated) page) ≡ ok snapshot
      → marshal.modules_json page.modules ≡ ok modules
      → (bytes : packer.Bytes) × (bundle_of packer marshal times named generated dated page
          ≡ ok (bytes, codes "porcelain-diagnostics-" ++ times.compact named ++ codes ".tar.gz"))
        × (entries bytes
            ≡ (
              codes "manifest.txt",
              codes "Porcelain diagnostics bundle\nGenerated: "
                  ++ times.rfc3339 dated
                  ++ codes "\nHostname: "
                  ++ page.hostname
                  ++ codes "\n",
            )
              ∷ (codes "snapshot.json", snapshot)
              ∷ (codes "module-status.json", modules)
              ∷ [])
        × (find (codes "hostname") (snapshot_map (times.rfc3339 generated) page)
            ≡ some (text_field page.hostname))
        × (find (codes "journal_tail") (snapshot_map (times.rfc3339 generated) page)
            ≡ some (lines_field page.journal_tail))
        × (find (codes "module_status_list") (snapshot_map (times.rfc3339 generated) page)
            ≡ some (modules_field page.modules))
  unfolding bundle_of proceed manifest snapshot_map find ◌==◌
  bundle_of_lem marshal times named generated dated page snapshot modules s m =
      let (bytes, h, f) =
        pack_lem (manifest (times.rfc3339 dated) page.hostname) snapshot modules in
      (bytes, rw (bundle_of, proceed, s, m, h) refl, f, refl, refl, refl)
