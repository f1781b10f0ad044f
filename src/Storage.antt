-- ===== src/Storage.antt =====
-- internal/modules/storage: the storage module, its cache, its two data sources, and the operations
-- on devices. The records are those of internal/viewdata. The mutex guards single statements and is
-- left out; nil modules are left out, since every module is built by `New`.
pub mod Fake
pub mod Laws
pub mod Cache
mod Tests
use porcelain.Prelude.{
  ℕ, ℤ, pos, String, Bool, true, false, ◌||◌, ◌&&◌, List, [], ◌∷◌, ◌++◌, Option, none, some, not,
  if◌then◌else◌, Result, ok, err, is_nil,
}
use porcelain.Text.{Text, codes, ◌==◌, trim_space, to_lower}
use porcelain.Host.{Host, Outcome, World, command, exec}
use porcelain.Registry.{healthy, degraded, unavailable, Status}
use porcelain.Dbus.{Bus, Calls, BusError, fixed, Client, Platform, ConnectionConfig, dial}
use porcelain.Dbus.Udisks
use porcelain.Dbus.Udisks.{list_block_devices, check_not_boot_device, is_boot_mount}

pub record Dataset : Type 0 where
  pub name : Text
  pub used : ℕ
  pub available : ℕ

pub record Pool : Type 0 where
  pub name : Text
  pub health : Text
  pub raid_type : Text
  pub allocated : ℕ
  pub size : ℕ
  pub compression_ratio : Text
  pub deduplication : Text
  pub scrub_status : Text
  pub last_scrub : Text
  pub datasets : List Dataset

pub record BlockDevice : Type 0 where
  pub object_path : Text
  pub device : Text
  pub path : Text
  pub model : Text
  pub size : ℤ
  pub kind : Text
  pub filesystem : Text
  pub label : Text
  pub mount_points : List Text
  pub is_encrypted : Bool
  pub encryption_type : Text
  pub is_boot_device : Bool

pub record StorageData : Type 0 where
  pub pools : List Pool
  pub block_devices : List BlockDevice
  pub available_devices : List BlockDevice

-- The zero value of the record, and the stub that `viewdata.Storage` returns.
abbrev pub no_data : StorageData
no_data = record { pools = []; block_devices = []; available_devices = [] }

-- The two data sources of the package; any other one, by its kind and by what it returns.
pub data Backend : Type 0 where
  udisks_backend : Client → Backend
  fake_backend : Text → Backend
  other_backend : Text → Result BusError StorageData → Backend

pub record Module : Type 0 where
  pub backend : Option Backend
  pub cached : StorageData
  pub last : Option BusError

unfoldable pub new_module : Option Backend → Module
new_module b = record { backend = b; cached = no_data; last = none }

unfoldable pub new_from_connection : Platform → ConnectionConfig → Module
unfolding new_module
new_from_connection os cfg = elim (dial os cfg) [
  | err e ↦ new_module (some (fake_backend e))
  | ok client ↦ new_module (some (udisks_backend client))
]

unfoldable pub status : Module → Status
status m = elim m.backend [
  | none ↦ record { health = unavailable; detail = codes "no backend" }
  | some b ↦ elim b [
    | udisks_backend _ ↦ record { health = healthy; detail = codes "UDisks2 connected" }
    | fake_backend note ↦ record {
      health = degraded;
      detail = if is_nil note then codes "developer fake (no D-Bus)" else note;
    }
    | other_backend kind _ ↦ record { health = degraded; detail = kind }
  ]
]

unfoldable pub classify : Udisks.BlockDevice → Text
unfolding ◌==◌
classify d =
    if d.id_usage == codes "filesystem"
    then codes "filesystem"
    else if d.id_usage == codes "crypto"
    then codes "encrypted"
    else if d.id_usage == codes "raid"
    then codes "raid"
    else if d.id_usage == []
    then codes "raw"
    else d.id_usage

unfoldable pub is_boot_device : List Text → Bool
unfolding is_boot_mount
is_boot_device [] = false
is_boot_device (mp ∷ mps) = is_boot_mount mp || is_boot_device mps

unfoldable pub first_non_empty : List Text → Text
first_non_empty [] = []
first_non_empty (v ∷ vs) = if is_nil v then first_non_empty vs else v

-- One row of the table of block devices.
unfoldable pub row_of : Udisks.BlockDevice → BlockDevice
unfolding first_non_empty classify is_boot_device
row_of d = record {
  object_path = d.object_path;
  device = d.device;
  path = d.device;
  model = first_non_empty (d.drive_model ∷ d.drive_vendor ∷ []);
  size = d.size;
  kind = classify d;
  filesystem = d.id_type;
  label = d.id_label;
  mount_points = d.mount_points;
  is_encrypted = d.is_encrypted;
  encryption_type = d.encryption_type;
  is_boot_device = is_boot_device d.mount_points;
}

-- The test for a device that a pool may be built on.
abbrev pub is_available : Udisks.BlockDevice → Bool
is_available d = is_nil d.id_type && not d.is_encrypted

-- The loop of `Snapshot` over the devices, which fills the two tables.
unfoldable pub tables : List Udisks.BlockDevice → StorageData
unfolding row_of
tables [] = no_data
tables (d ∷ ds) =
    let rest = tables ds in
    if d.hint_ignore then rest else record rest {
      block_devices = row_of d ∷ rest.block_devices;
      available_devices =
          if is_available d then row_of d ∷ rest.available_devices else rest.available_devices;
    }

-- `udisks2Backend.Snapshot`, behind the list of devices.
unfoldable pub tables_of :
    Result BusError (List Udisks.BlockDevice) × Calls → Result BusError StorageData × Calls
unfolding tables
tables_of (err e, calls) = (err e, calls)
tables_of (ok devices, calls) = (ok (tables devices), calls)

-- The data of the fake source is a parameter here; `Fake` holds it.
unfoldable pub read_backend :
    StorageData → Bus → Backend → Calls → Result BusError StorageData × Calls
unfolding tables_of
read_backend sample bus (udisks_backend client) calls =
    tables_of (list_block_devices bus client calls)
read_backend sample bus (fake_backend _) calls = (ok sample, calls)
read_backend sample bus (other_backend _ result) calls = (result, calls)

-- The data, the error if there is one, the module, and the calls.
pub record Snapshot : Type 0 where
  pub data_shown : StorageData
  pub failure : Option BusError
  pub after : Module
  pub calls : Calls

-- The update of the cache behind the read.
unfoldable pub cached_read : Module → Result BusError StorageData × Calls → Snapshot
cached_read m (err e, calls) = record {
  data_shown = m.cached;
  failure = some e;
  after = record m { last = some e };
  calls = calls;
}
cached_read m (ok data_read, calls) = record {
  data_shown = data_read;
  failure = none;
  after = record m { cached = data_read; last = none };
  calls = calls;
}

unfoldable pub snapshot : StorageData → Bus → Module → Calls → Snapshot
unfolding read_backend cached_read
snapshot sample bus m calls = elim m.backend [
  | none ↦ record {
    data_shown = no_data;
    failure = some (fixed "storage: no backend");
    after = m;
    calls = calls;
  }
  | some b ↦ cached_read m (read_backend sample bus b calls)
]

-- The client of a module whose data source is UDisks2.
unfoldable pub udisks_client : Module → Option Client
udisks_client m = elim m.backend [
  | none ↦ none
  | some b ↦ elim b [ udisks_backend client ↦ some client | _ ↦ none ]
]

unfoldable pub format_block :
    Bus → Module → Text → Text → Calls → Result BusError (Unit {0}) × Calls
unfolding udisks_client
format_block bus m object fs_type calls = elim (udisks_client m) [
  | none ↦ (err (fixed "storage: udisks2 backend unavailable"), calls)
  | some client ↦
      let (checked, after) = check_not_boot_device bus client object calls in
      elim checked [
        | err e ↦ (err e, after)
        | ok _ ↦ Udisks.format_block bus client object fs_type after
      ]
]

unfoldable pub unlock_block :
    Bus → Module → Text → Text → Calls → Result BusError (Unit {0}) × Calls
unfolding udisks_client
unlock_block bus m object passphrase calls = elim (udisks_client m) [
  | none ↦ (err (fixed "storage: udisks2 backend unavailable"), calls)
  | some client ↦ Udisks.unlock_block bus client object passphrase calls
]

-- The error of a run of `udisksctl`.
unfoldable pub command_result : Text → Outcome × World → Result Text (Unit {0}) × World
unfolding trim_space
command_result what (out, w) = elim out.failure [
  | none ↦ (ok tt, w)
  | some _ ↦ (err (what ++ codes " failed: " ++ trim_space out.output), w)
]

unfoldable pub format_device : Host → Text → Text → World → Result Text (Unit {0}) × World
unfolding command_result
format_device host device_path fs_type w =
    let device = trim_space device_path in
    let kind = trim_space (to_lower fs_type) in
    if is_nil device
    then (err (codes "device path is required"), w)
    else command_result (codes "udisksctl format") (
        exec host w (
          command (codes "udisksctl") (
            codes "format"
            ∷ codes "-b"
            ∷ device
            ∷ codes "--type"
            ∷ (if is_nil kind then codes "ext4" else kind)
            ∷ [])))

unfoldable pub unlock_device : Host → Text → World → Result Text (Unit {0}) × World
unfolding command_result
unlock_device host device_path w =
    let device = trim_space device_path in
    if is_nil device
    then (err (codes "device path is required"), w)
    else command_result (codes "udisksctl unlock")
        (exec host w (command (codes "udisksctl") (codes "unlock" ∷ codes "-b" ∷ device ∷ [])))
