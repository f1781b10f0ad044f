-- ===== src/Dbus/NetworkManager.antt =====
-- internal/dbus/networkmanager: the network devices, and the switch for all networking.
use porcelain.Prelude.{
  ℕ, String, Bool, true, false, List, [], ◌∷◌, ◌++◌, if◌then◌else◌, Result, ok, err,
}
use porcelain.Text.{Text, codes}
use porcelain.Dbus.{
  Value, string_value, uint32_value, flag_value, Answer, value_body, paths_body, Call, Calls, Bus,
  send, BusError, fixed, failed_call, Client, completed,
}

pub record Device : Type 0 where
  pub path : Text
  pub interface : Text
  pub device_type : ℕ
  pub state : ℕ
  pub state_reason : ℕ
  pub hw_address : Text

abbrev manager_call : Text → String → List Value → Call
manager_call object method args = record {
  service = "org.freedesktop.NetworkManager";
  object = object;
  method = method;
  args = args;
}

-- `readProp`, which the callers ignore the error of: the answer, and the calls.
unfoldable pub read_prop : Bus → Text → String → Calls → Result Text Answer × Calls
unfolding send
read_prop bus object name calls = send bus calls (
    manager_call object "org.freedesktop.DBus.Properties.Get" (
      string_value (codes "org.freedesktop.NetworkManager.Device")
      ∷ string_value (codes name)
      ∷ []))

-- What `Store` leaves in a string and in a `uint32`: the zero value if the read or the type fails.
unfoldable pub stored_string : Result Text Answer → Text
stored_string (ok (value_body (string_value s))) = s
stored_string _ = []

unfoldable pub stored_uint32 : Result Text Answer → ℕ
stored_uint32 (ok (value_body (uint32_value n))) = n
stored_uint32 _ = 0

unfoldable pub read_device : Bus → Text → Calls → Device × Calls
unfolding read_prop stored_string stored_uint32
read_device bus path calls =
    let (interface, calls1) = read_prop bus path "Interface" calls in
    let (device_type, calls2) = read_prop bus path "DeviceType" calls1 in
    let (state, calls3) = read_prop bus path "State" calls2 in
    let (reason, calls4) = read_prop bus path "StateReason" calls3 in
    let (address, calls5) = read_prop bus path "HwAddress" calls4 in
    (
      record {
        path = path;
        interface = stored_string interface;
        device_type = stored_uint32 device_type;
        state = stored_uint32 state;
        state_reason = stored_uint32 reason;
        hw_address = stored_string address;
      },
      calls5,
    )

unfoldable pub read_devices : Bus → List Text → Calls → List Device × Calls
unfolding read_device
read_devices bus [] calls = ([], calls)
read_devices bus (path ∷ paths) calls =
    let (device, after) = read_device bus path calls in
    let (devices, last) = read_devices bus paths after in (device ∷ devices, last)

-- The devices behind the answer that lists their paths.
unfoldable pub listed_devices :
    Bus → Result Text Answer → Calls → Result BusError (List Device) × Calls
unfolding read_devices
listed_devices bus (err e) calls = (err (failed_call (codes "networkmanager GetDevices") e), calls)
listed_devices bus (ok (paths_body paths)) calls =
    let (devices, after) = read_devices bus paths calls in (ok devices, after)
listed_devices bus (ok _) calls =
    (err (failed_call (codes "networkmanager GetDevices decode") bus.mismatch), calls)

unfoldable pub list_devices : Bus → Client → Calls → Result BusError (List Device) × Calls
unfolding send listed_devices
list_devices bus client calls =
    if client.connected
    then (let (answer, after) = send bus calls (
          manager_call (codes "/org/freedesktop/NetworkManager")
            "org.freedesktop.NetworkManager.GetDevices" []) in
        listed_devices bus answer after)
    else (err (fixed "networkmanager: nil connection"), calls)

-- `%t`.
abbrev pub print_flag : Bool → Text
print_flag true = codes "true"
print_flag false = codes "false"

unfoldable pub set_networking_enabled :
    Bus → Client → Bool → Calls → Result BusError (Unit {0}) × Calls
unfolding send
set_networking_enabled bus client enabled calls =
    if client.connected
    then (let (answer, after) = send bus calls (
          manager_call (codes "/org/freedesktop/NetworkManager")
            "org.freedesktop.NetworkManager.Enable" (flag_value enabled ∷ [])) in
        (
          completed (codes "networkmanager Enable(" ++ print_flag enabled ++ codes ")") answer,
          after,
        ))
    else (err (fixed "networkmanager: nil connection"), calls)
