-- ===== src/Storage/Laws.antt =====
-- internal/modules/storage: the guard in front of formatting.
use porcelain.Prelude.{true, [], ◌∷◌, some, err, ◌≡◌, ◌≢◌, ◌↔◌, inl, inr, refl, arith, ap, cons_ne}
use porcelain.Text.{Text, codes}
use porcelain.Dbus.{Bus, Calls, mounted_at, Client}
use porcelain.Dbus.Udisks.{answered_mounts, mounts_call, format_call}
use porcelain.Dbus.Udisks.Guard.{
  AnyBoot, boot_mount-Boot, check_refuses, check_passes, format_block_formats,
}
use porcelain.Storage.{Module, format_block, udisks_client}

module _ (bus : Bus) (m : Module) (client : Client) (object fs_type : Text) (calls : Calls) where
  -- Through a connection to UDisks2, if the device answers that it is mounted at `/`, `/boot` or
  -- `/boot/efi`, formatting is refused, and the only call that is made is the one that reads the
  -- mount points.
  pub format_block_spares_boot :
      udisks_client m ≡ some client
      → client.connected ≡ true
      → AnyBoot (answered_mounts (bus.answer calls (mounts_call object)))
      → (path : Text) × (format_block bus m object fs_type calls
          ≡ (err (mounted_at object path), mounts_call object ∷ calls))
  unfolding format_block
  format_block_spares_boot known connected boot =
      elim (boot_mount-Boot (answered_mounts (bus.answer calls (mounts_call object)))) [
        | inl (_, (path, found)) ↦
            let refused = check_refuses bus client object calls path connected found in
            (path, rw (format_block, known, refused, ap (λ r. r.1) refused) refl)
        | inr (clear, _) ↦ absurd (clear boot)
      ]

  -- Through a connection to UDisks2, the device is told to format itself if and only if the answer
  -- to the read of its mount points names none of `/`, `/boot` and `/boot/efi`, the path is
  -- neither empty nor `/`, and a type is given; a read that fails names none.
  pub format_block_iff :
      udisks_client m ≡ some client
      → client.connected ≡ true
      → ((format_block bus m object fs_type calls).1
          ≡ format_call object fs_type ∷ mounts_call object ∷ calls)
        ↔ (¬ AnyBoot (answered_mounts (bus.answer calls (mounts_call object)))
            × (object ≢ [])
            × (object ≢ codes "/")
            × (fs_type ≢ []))
  unfolding format_block
  format_block_iff known connected =
      elim (boot_mount-Boot (answered_mounts (bus.answer calls (mounts_call object)))) [
        | inl (boot, (path, found)) ↦
            let new = cons_ne (format_call object fs_type) (mounts_call object ∷ calls) in
            let refused = check_refuses bus client object calls path connected found in
            rw (format_block, known, refused, ap (λ r. r.1) refused) (ground (arith, new, boot))
        | inr (clear, found) ↦
            let formats =
              format_block_formats bus client object (mounts_call object ∷ calls) fs_type
                connected in
            let passed = check_passes bus client object calls connected found in
            rw (format_block, known, passed, ap (λ r. r.1) passed)
              (ground (arith, formats.0, formats.1, clear))
      ]
