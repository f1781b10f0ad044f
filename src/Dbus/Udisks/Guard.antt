-- ===== src/Dbus/Udisks/Guard.antt =====
-- internal/dbus/udisks2: which devices the check in front of formatting lets through.
use porcelain.Prelude.{
  true, List, [], ◌∷◌, none, some, ok, err, ◌≡◌, ◌≢◌, ◌↔◌, ◌⊎◌, inl, inr, refl, arith, Bool-cases,
  cons_ne, nil_of_is_nil,
}
use porcelain.Text.{Text, codes, trim_right}
use porcelain.Text.Affix.{eq_iff}
use porcelain.Text.Sort.{listed}
use porcelain.Dbus.Udisks.{
  boot_mount, is_boot_mount, is_nul, answered_mounts, mounts_call, format_call,
  check_not_boot_device, format_block,
}
use porcelain.Dbus.{Bus, Calls, mounted_at, Client, send}

-- A mount point that marks the running system, once the zero bytes at its end are gone.
abbrev pub IsBoot : Text → Type 0
IsBoot mp =
    let path = trim_right is_nul mp in
    (path ≡ codes "/") ⊎ (path ≡ codes "/boot") ⊎ (path ≡ codes "/boot/efi")

-- Some mount point of a list marks it.
abbrev pub AnyBoot : List Text → Type 0
AnyBoot [] = ⊥
AnyBoot (mp ∷ mps) = IsBoot mp ⊎ AnyBoot mps

is_boot_mount_iff :
    (path : Text)
    → (is_boot_mount path ≡ true)
      ↔ ((path ≡ codes "/") ⊎ (path ≡ codes "/boot") ⊎ (path ≡ codes "/boot/efi"))
unfolding is_boot_mount listed
is_boot_mount_iff path =
    ground
      (arith, eq_iff (codes "/") path, eq_iff (codes "/boot") path, eq_iff (codes "/boot/efi") path)

-- The check finds such a mount point exactly if there is one.
pub boot_mount-Boot :
    (mps : List Text)
    → (AnyBoot mps × ((path : Text) × (boot_mount mps ≡ some path)))
      ⊎ ((¬ AnyBoot mps) × (boot_mount mps ≡ none))
unfolding boot_mount
boot_mount-Boot [] = inr ((λ h. h), refl)
boot_mount-Boot (mp ∷ mps) =
    let path = trim_right is_nul mp in
    let marks = is_boot_mount_iff path in
    elim (Bool-cases (is_boot_mount path)) [
      | inl e ↦ inl (inl (marks.0 e), (path, rw e refl))
      | inr e ↦ elim (boot_mount-Boot mps) [
        | inl (h, (found, eq)) ↦ inl (inr h, (found, rw e eq))
        | inr (h, eq) ↦
            inr ((λ any. elim any [ inl b ↦ ground (arith, e, marks.1 b) | inr b ↦ h b ]), rw e eq)
      ]
    ]

module _ (bus : Bus) (client : Client) (object : Text) (calls : Calls) where
  pub check_refuses :
      (path : Text)
      → client.connected ≡ true
      → boot_mount (answered_mounts (bus.answer calls (mounts_call object))) ≡ some path
      → check_not_boot_device bus client object calls
        ≡ (err (mounted_at object path), mounts_call object ∷ calls)
  unfolding check_not_boot_device send
  check_refuses path connected found = rw (connected, send, found) refl

  pub check_passes :
      client.connected ≡ true
      → boot_mount (answered_mounts (bus.answer calls (mounts_call object))) ≡ none
      → check_not_boot_device bus client object calls ≡ (ok tt, mounts_call object ∷ calls)
  unfolding check_not_boot_device send
  check_passes connected found = rw (connected, send, found) refl

  -- The call is made exactly if a path and a type are given.
  pub format_block_formats :
      (fs_type : Text)
      → client.connected ≡ true
      → ((format_block bus client object fs_type calls).1 ≡ format_call object fs_type ∷ calls)
        ↔ ((object ≢ []) × (object ≢ codes "/") × (fs_type ≢ []))
  unfolding format_block send
  format_block_formats fs_type connected =
      let slash = eq_iff object (codes "/") in
      let new = cons_ne (format_call object fs_type) calls in
      rw connected (ground (arith, slash, new, nil_of_is_nil object, nil_of_is_nil fs_type))
