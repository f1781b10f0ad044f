-- ===== src/Dbus/Udisks.antt =====
-- internal/dbus/udisks2: the block devices, and formatting and unlocking of one.
-- Among block devices with the same text under `Device` the order of Go's sort is not specified;
-- the model keeps the order of the maps.
pub mod Guard
use porcelain.Prelude.{
  ℕ, ℤ, pos, int64, String, Bool, true, false, ◌||◌, List, [], ◌∷◌, ◌++◌, Option, none, some, not,
  if◌then◌else◌, eqb, Result, ok, err, is_nil, ◌&&◌,
}
use porcelain.Text.{Text, codes, ◌==◌, trim_right}
use porcelain.Text.Dict.{find}
use porcelain.Text.Sort.{text_leb, listed}
use porcelain.Dbus.{
  Value, string_value, bytes_value, path_value, uint64_value, flag_value, byte_lists_value,
  empty_options, Answer, value_body, paths_body, objects_body, Properties, Interfaces, Objects,
  Call, Calls, Bus, send, BusError, fixed, failed_call, mounted_at, Client, completed,
}

pub record BlockDevice : Type 0 where
  pub object_path : Text
  pub device : Text
  pub preferred_path : Text
  pub size : ℤ
  pub id_type : Text
  pub id_label : Text
  pub id_usage : Text
  pub mount_points : List Text
  pub is_encrypted : Bool
  pub encryption_type : Text
  pub hint_ignore : Bool
  pub hint_system : Bool
  pub drive_model : Text
  pub drive_vendor : Text
  pub drive_serial : Text

abbrev pub is_nul : ℕ → Bool
is_nul c = eqb c 0

unfoldable pub bytes_to_string : Option Value → Text
unfolding trim_right
bytes_to_string (some (bytes_value s)) = trim_right is_nul s
bytes_to_string (some (string_value s)) = s
bytes_to_string _ = []

-- The loop of `bytesToStrings`.
unfoldable pub kept_strings : List Text → List Text
unfolding trim_right
kept_strings [] = []
kept_strings (item ∷ items) =
    let rest = kept_strings items in
    let value = trim_right is_nul item in if is_nil value then rest else value ∷ rest

unfoldable pub bytes_to_strings : Option Value → List Text
unfolding kept_strings
bytes_to_strings (some (byte_lists_value items)) = kept_strings items
bytes_to_strings _ = []

-- The type assertions on properties, with the zero value where a property is missing or of another
-- type.
unfoldable pub string_of : Option Value → Text
string_of (some (string_value s)) = s
string_of _ = []

unfoldable pub size_of : Option Value → ℤ
size_of (some (uint64_value n)) = int64 n
size_of _ = pos 0

unfoldable pub flag_of : Option Value → Bool
flag_of (some (flag_value b)) = b
flag_of _ = false

-- The type of encryption, "LUKS" if the property is not a string.
unfoldable pub encryption_of : Option Properties → Text
unfolding string_of find
encryption_of none = []
encryption_of (some crypto) =
    let kind = string_of (find (codes "MetadataSize") crypto) in
    if is_nil kind then codes "LUKS" else kind

unfoldable pub mounts_of : Option Properties → List Text
unfolding bytes_to_strings find
mounts_of none = []
mounts_of (some fs) = bytes_to_strings (find (codes "MountPoints") fs)

-- The properties of the drive under an object path, `[]` if there are none.
unfoldable pub drive_of : Objects → Option Value → Properties
unfolding find ◌==◌
drive_of managed (some (path_value drive)) =
    if drive == codes "/" then [] else elim (find drive managed) [
      | none ↦ []
      | some interfaces ↦ elim (find (codes "org.freedesktop.UDisks2.Drive") interfaces) [
        | none ↦ []
        | some properties ↦ properties
      ]
    ]
drive_of managed _ = []

abbrev is_some : {A : Type 0} → Option A → Bool
is_some none = false
is_some (some _) = true

-- The body of the loop of `ListBlockDevices`, for an object with the block interface.
unfoldable pub block_device : Objects → Text → Properties → Interfaces → BlockDevice
unfolding bytes_to_string size_of string_of flag_of encryption_of mounts_of drive_of find
block_device managed path block interfaces =
    let crypto = find (codes "org.freedesktop.UDisks2.Encrypted") interfaces in
    let drive = drive_of managed (find (codes "Drive") block) in
    record {
      object_path = path;
      device = bytes_to_string (find (codes "Device") block);
      preferred_path = bytes_to_string (find (codes "PreferredDevice") block);
      size = size_of (find (codes "Size") block);
      id_type = string_of (find (codes "IdType") block);
      id_label = string_of (find (codes "IdLabel") block);
      id_usage = string_of (find (codes "IdUsage") block);
      mount_points = mounts_of (find (codes "org.freedesktop.UDisks2.Filesystem") interfaces);
      is_encrypted = is_some crypto;
      encryption_type = encryption_of crypto;
      hint_ignore = flag_of (find (codes "HintIgnore") block);
      hint_system = flag_of (find (codes "HintSystem") block);
      drive_model = string_of (find (codes "Model") drive);
      drive_vendor = string_of (find (codes "Vendor") drive);
      drive_serial = string_of (find (codes "Serial") drive);
    }

-- The loop of `ListBlockDevices` over the objects.
unfoldable pub block_devices : Objects → Objects → List BlockDevice
unfolding block_device find
block_devices managed [] = []
block_devices managed ((path, interfaces) ∷ rest) =
    let others = block_devices managed rest in
    elim (find (codes "org.freedesktop.UDisks2.Block") interfaces) [
      | none ↦ others
      | some block ↦ block_device managed path block interfaces ∷ others
    ]

unfoldable pub insert_device : BlockDevice → List BlockDevice → List BlockDevice
unfolding text_leb
insert_device d [] = d ∷ []
insert_device d (e ∷ es) =
    let rest = insert_device d es in if text_leb d.device e.device then d ∷ e ∷ es else e ∷ rest

-- `sort.Slice` by `Device`.
unfoldable pub sort_devices : List BlockDevice → List BlockDevice
unfolding insert_device
sort_devices [] = []
sort_devices (d ∷ ds) = insert_device d (sort_devices ds)

abbrev pub disk_call : Text → String → List Value → Call
disk_call object method args = record {
  service = "org.freedesktop.UDisks2";
  object = object;
  method = method;
  args = args;
}

unfoldable pub managed_objects : Bus → Calls → Result BusError Objects × Calls
unfolding send
managed_objects bus calls =
    let (answer, after) = send bus calls (
      disk_call (codes "/org/freedesktop/UDisks2")
        "org.freedesktop.DBus.ObjectManager.GetManagedObjects" []) in
    elim answer [
      | err e ↦ (err (failed_call (codes "udisks2 GetManagedObjects") e), after)
      | ok body ↦ elim body [
        | objects_body managed ↦ (ok managed, after)
        | _ ↦ (err (failed_call (codes "udisks2 GetManagedObjects decode") bus.mismatch), after)
      ]
    ]

-- The block devices of the objects that were read.
unfoldable pub list_managed :
    Result BusError Objects × Calls → Result BusError (List BlockDevice) × Calls
unfolding sort_devices block_devices
list_managed (err e, after) = (err e, after)
list_managed (ok managed, after) = (ok (sort_devices (block_devices managed managed)), after)

unfoldable pub list_block_devices :
    Bus → Client → Calls → Result BusError (List BlockDevice) × Calls
unfolding managed_objects list_managed
list_block_devices bus client calls =
    if client.connected
    then list_managed (managed_objects bus calls)
    else (err (fixed "udisks2: nil connection"), calls)

-- The mount points that mark the running system.
abbrev pub boot_mount_paths : List Text
boot_mount_paths = codes "/" ∷ codes "/boot" ∷ codes "/boot/efi" ∷ []

unfoldable pub is_boot_mount : Text → Bool
unfolding listed
is_boot_mount path = listed path boot_mount_paths

-- The loop of `CheckNotBootDevice`: the first mount point that marks the running system.
unfoldable pub boot_mount : List Text → Option Text
unfolding is_boot_mount trim_right
boot_mount [] = none
boot_mount (mp ∷ mps) =
    let path = trim_right is_nul mp in if is_boot_mount path then some path else boot_mount mps

-- The mount points that the answer to the property read gives; none if the read fails.
unfoldable pub answered_mounts : Result Text Answer → List Text
answered_mounts (ok (value_body (byte_lists_value mps))) = mps
answered_mounts _ = []

-- The read of the mount points of a device.
abbrev pub mounts_call : Text → Call
mounts_call object = disk_call object "org.freedesktop.DBus.Properties.Get" (
    string_value (codes "org.freedesktop.UDisks2.Filesystem")
    ∷ string_value (codes "MountPoints")
    ∷ [])

unfoldable pub check_not_boot_device :
    Bus → Client → Text → Calls → Result BusError (Unit {0}) × Calls
unfolding send boot_mount answered_mounts
check_not_boot_device bus client object calls =
    if client.connected
    then (let (answer, after) = send bus calls (mounts_call object) in
        elim (boot_mount (answered_mounts answer)) [
          | none ↦ (ok tt, after)
          | some path ↦ (err (mounted_at object path), after)
        ])
    else (err (fixed "udisks2: nil connection"), calls)

-- The call that formats a device.
abbrev pub format_call : Text → Text → Call
format_call object fs_type =
    disk_call object "org.freedesktop.UDisks2.Block.Format"
      (string_value fs_type ∷ empty_options ∷ [])

unfoldable pub format_block :
    Bus → Client → Text → Text → Calls → Result BusError (Unit {0}) × Calls
unfolding send ◌==◌
format_block bus client object fs_type calls =
    if client.connected
    then (if is_nil object || object == codes "/"
        then (err (fixed "udisks2: block object path is required"), calls)
        else if is_nil fs_type
        then (err (fixed "udisks2: filesystem type is required"), calls)
        else (let (answer, after) = send bus calls (format_call object fs_type) in
            (
              completed (codes "udisks2 format " ++ object ++ codes " as " ++ fs_type) answer,
              after,
            )))
    else (err (fixed "udisks2: nil connection"), calls)

-- The reading of the path of the device in clear text.
unfoldable pub stored_path : Bus → Text → Result Text Answer → Result BusError (Unit {0})
stored_path bus object (err e) = err (failed_call (codes "udisks2 unlock " ++ object) e)
stored_path bus object (ok (value_body (path_value _))) = ok tt
stored_path bus object (ok _) = err (
    failed_call (codes "udisks2 unlock " ++ object ++ codes ": reading cleartext path")
      bus.mismatch)

unfoldable pub unlock_block :
    Bus → Client → Text → Text → Calls → Result BusError (Unit {0}) × Calls
unfolding send ◌==◌ stored_path
unlock_block bus client object passphrase calls =
    if client.connected
    then (if is_nil object || object == codes "/"
        then (err (fixed "udisks2: block object path is required"), calls)
        else (let (answer, after) = send bus calls (
              disk_call object "org.freedesktop.UDisks2.Encrypted.Unlock"
                (string_value passphrase ∷ empty_options ∷ [])) in
            (stored_path bus object answer, after)))
    else (err (fixed "udisks2: nil connection"), calls)
