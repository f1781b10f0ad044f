-- ===== src/Storage/Tests.antt =====
-- The guard in front of formatting and the cache, at concrete devices.
use porcelain.Prelude.{[], ◌∷◌, none, some, ok, err, ◌≡◌, ◌≢◌, ◌↔◌, refl, inl, inr}
use porcelain.Text.{Text, codes, trim_right}
use porcelain.Dbus.{
  Bus, value_body, objects_body, byte_lists_value, failed_call, mounted_at, new_client, send,
}
use porcelain.Dbus.Udisks.{
  mounts_call, format_call, answered_mounts, list_block_devices, managed_objects, list_managed,
}
use porcelain.Dbus.Udisks.Guard.{AnyBoot}
use porcelain.Storage.{
  no_data, Backend, udisks_backend, Module, new_module, udisks_client, format_block, snapshot,
  cached_read, read_backend, tables_of,
}
use porcelain.Storage.Fake.{fake_data}
use porcelain.Storage.Laws.{format_block_spares_boot, format_block_iff}
use porcelain.Storage.Cache.{snapshots, answers, latest, snapshot_shows_latest}

abbrev source : Backend
source = udisks_backend new_client

abbrev storage : Module
storage = record { backend = some source; cached = no_data; last = none }

-- A bus on which every device is mounted at `/boot`, with the zero byte of UDisks2 at the end.
abbrev booted : Bus
booted = record {
  answer = λ calls c.
      ok (value_body (byte_lists_value ((b'/' ∷ b'b' ∷ b'o' ∷ b'o' ∷ b't' ∷ 0 ∷ []) ∷ [])));
  mismatch = [];
}

abbrev empty_host : Bus
empty_host = record { answer = λ calls c. ok (objects_body []); mismatch = [] }

abbrev silent : Bus
silent = record { answer = λ calls c. err (codes "timeout"); mismatch = [] }

abbrev disk : Text
disk = codes "/org/freedesktop/UDisks2/block_devices/sda1"

format_block_spares_boot_example :
    (path : Text) × (format_block booted storage disk (codes "ext4") []
      ≡ (err (mounted_at disk path), mounts_call disk ∷ []))
unfolding udisks_client answered_mounts trim_right
format_block_spares_boot_example =
    format_block_spares_boot booted storage new_client disk (codes "ext4") [] refl refl
      (inl (inr (inl refl)))

format_block_iff_example :
    ((format_block silent storage disk (codes "ext4") []).1
      ≡ format_call disk (codes "ext4") ∷ mounts_call disk ∷ [])
    ↔ ((¬ AnyBoot (answered_mounts (silent.answer [] (mounts_call disk))))
        × (disk ≢ [])
        × (disk ≢ codes "/")
        × (codes "ext4" ≢ []))
unfolding udisks_client
format_block_iff_example =
    format_block_iff silent storage new_client disk (codes "ext4") [] refl refl

snapshot_shows_latest_example :
    (snapshot fake_data silent
      (snapshots fake_data source (empty_host ∷ []) (new_module (some source)) []).0
      (snapshots fake_data source (empty_host ∷ []) (new_module (some source)) []).1).data_shown
    ≡ latest fake_data source no_data (answers fake_data source (empty_host ∷ []) [])
unfolding snapshots new_module snapshot cached_read read_backend tables_of list_block_devices
    managed_objects list_managed send
snapshot_shows_latest_example =
    snapshot_shows_latest fake_data source (empty_host ∷ []) silent []
      (snapshots fake_data source (empty_host ∷ []) (new_module (some source)) []).1
      (snapshots fake_data source (empty_host ∷ []) (new_module (some source)) []).0
      (failed_call (codes "udisks2 GetManagedObjects") (codes "timeout")) refl refl
