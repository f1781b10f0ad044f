-- ===== src/Server/Bundle.antt =====
-- internal/server/router.go: the support bundle, `diagnosticsBundle` with its handler. The writers of
-- tar and gzip, JSON and the print of a time are parameters.
pub mod Laws
mod Tests
use porcelain.Prelude.{ℕ, Bool, List, [], ◌∷◌, ◌++◌, Result, ok, err}
use porcelain.Text.{Text, codes, byte_length}
use porcelain.Text.Dict.{Dict}
use porcelain.Host.{Host}
use porcelain.Dbus.{Bus}
use porcelain.Diagnostics.{Machine, ServiceSummary}
use porcelain.Server.{HostModule, App}
use porcelain.Server.DiagnosticsPage.{
  Described, DiagnosticsPageData, DiagnosticsModuleStatus, diagnostics_page_data,
}

-- A tar archive in a gzip stream: the header of a file with its size, its contents, and the two ends.
pub record Packer : Type 1 where
  pub Writer : Type 0
  pub Bytes : Type 0
  pub new_writer : Writer
  pub write_header : Text → ℕ → Writer → Result Text Writer
  pub write : Text → Writer → Result Text Writer
  pub close_tar : Writer → Result Text Writer
  pub close_gzip : Writer → Result Text Bytes

-- What stands under a key of the snapshot.
pub data SnapshotField : Type 0 where
  text_field : Text → SnapshotField
  count_field : ℕ → SnapshotField
  services_field : List ServiceSummary → SnapshotField
  lines_field : List Text → SnapshotField
  modules_field : List DiagnosticsModuleStatus → SnapshotField

-- The map that the code builds from the page, with the time it was made at.
unfoldable pub snapshot_map : Text → DiagnosticsPageData → Dict SnapshotField
snapshot_map generated page =
    (codes "generated_at", text_field generated)
    ∷ (codes "hostname", text_field page.hostname)
    ∷ (codes "kernel", text_field page.kernel)
    ∷ (codes "os", text_field page.os)
    ∷ (codes "uptime", text_field page.uptime)
    ∷ (codes "running_services", count_field page.running_services)
    ∷ (codes "total_services", count_field page.total_services)
    ∷ (codes "services", services_field page.services)
    ∷ (codes "journal_tail", lines_field page.journal_tail)
    ∷ (codes "rpm_ostree_status", text_field page.ostree_status)
    ∷ (codes "module_status_list", modules_field page.modules)
    ∷ []

-- `MarshalIndent` of such a map, and of the statuses.
pub record Marshal : Type 0 where
  pub snapshot_json : Dict SnapshotField → Result Text Text
  pub modules_json : List DiagnosticsModuleStatus → Result Text Text

-- The print of a time for a file name, and in RFC 3339.
pub record TimePrint : Type 0 where
  pub compact : ℕ → Text
  pub rfc3339 : ℕ → Text

-- The rest after a call, or its error with words in front.
unfoldable pub proceed : {A B : Type 0} → Text → Result Text A → (A → Result Text B) → Result Text B
proceed words (err e) rest = err (words ++ codes ": " ++ e)
proceed words (ok a) rest = rest a

unfoldable pub manifest : Text → Text → Text
manifest generated hostname =
    codes "Porcelain diagnostics bundle\nGenerated: "
    ++ generated
    ++ codes "\nHostname: "
    ++ hostname
    ++ codes "\n"

module _ (packer : Packer) where
  open packer use {Writer, Bytes, new_writer, write_header, write, close_tar, close_gzip}

  unfoldable pub add_file : Text → Text → Writer → Result Text Writer
  unfolding byte_length
  add_file name body w = elim (write_header name (byte_length body) w) [
    | err e ↦ err e
    | ok w' ↦ write body w'
  ]

  -- The archive of the three files.
  unfoldable pub pack : Text → Text → Text → Result Text Bytes
  unfolding proceed add_file
  pack text snapshot modules =
      proceed (codes "write manifest") (add_file (codes "manifest.txt") text new_writer) λ w.
        proceed (codes "write snapshot") (add_file (codes "snapshot.json") snapshot w) λ w.
          proceed (codes "write module status") (add_file (codes "module-status.json") modules w)
            λ w.
              proceed (codes "close tar writer") (close_tar w)
                λ w. proceed (codes "close gzip writer") (close_gzip w) λ bytes. ok bytes

module _ (packer : Packer) (marshal : Marshal) (times : TimePrint) where
  open packer use {Bytes}
  open marshal use {snapshot_json, modules_json}
  open times use {compact, rfc3339}

  -- The bundle of a page and the name of its file. The clock is read for the name, for the snapshot
  -- and for the manifest, in this order.
  unfoldable pub bundle_of : ℕ → ℕ → ℕ → DiagnosticsPageData → Result Text (Bytes × Text)
  unfolding pack manifest snapshot_map
  bundle_of named generated dated page =
      proceed (codes "marshal diagnostics snapshot")
        (snapshot_json (snapshot_map (rfc3339 generated) page))
        λ snapshot. proceed (codes "marshal module status") (modules_json page.modules) λ modules.
          elim (pack packer (manifest (rfc3339 dated) page.hostname) snapshot modules) [
            | err e ↦ err e
            | ok bytes ↦
                ok (bytes, codes "porcelain-diagnostics-" ++ compact named ++ codes ".tar.gz")
          ]

  module _ {F : Type 0} (host : Host) (bus : Bus) (machine : Machine) (print : ℕ → Text)
      (modules : Described (HostModule F)) where
    -- `diagnosticsBundle`, and the app after the page was read.
    unfoldable pub diagnostics_bundle : ℕ → ℕ → ℕ → App F → Result Text (Bytes × Text) × App F
    unfolding bundle_of diagnostics_page_data
    diagnostics_bundle named generated dated app =
        let (page, after) = diagnostics_page_data host bus machine print modules app in
        (bundle_of named generated dated page, after)

module _ (packer : Packer) where
  open packer use {Bytes}

  -- A status with the text of the error, or the file as an attachment.
  pub data BundleReply : Type 0 where
    bundle_failed : ℕ → Text → BundleReply
    attachment : Text → Bytes → BundleReply

  -- GET /api/diagnostics/bundle
  unfoldable pub answer_bundle : Result Text (Bytes × Text) → BundleReply
  answer_bundle (err e) = bundle_failed 500 e
  answer_bundle (ok (bytes, name)) = attachment name bytes
