-- ===== src/Dbus.antt =====
-- internal/dbus/connection.go, and what the clients under internal/dbus use of the D-Bus library.
-- A call on the bus and its answer are parameters: the answer may depend on all calls made so far.
-- The connection settings `EnforcePeerCredentials` is kept, as in the program, and read by nothing.
pub mod Systemd
pub mod NetworkManager
pub mod Firewalld
pub mod Udisks
use porcelain.Prelude.{
  ℕ, String, Bool, true, false, List, [], ◌∷◌, ◌++◌, Option, none, some, if◌then◌else◌, Result, ok,
  err, is_nil, ◌&&◌, not,
}
use porcelain.Text.{Text, codes, ◌==◌}

-- The values that the clients send or read: a string, a `uint32`, a `uint64`, an `int32`, a Boolean,
-- an array of bytes, an array of such, an object path, and any other.
pub data Value : Type 0 where
  string_value bytes_value path_value : Text → Value
  uint32_value uint64_value int32_value : ℕ → Value
  flag_value : Bool → Value
  byte_lists_value : List Text → Value
  empty_options other_value : Value

-- The properties of an interface, and the interfaces of an object, in the order in which Go's
-- `range` visits the maps.
abbrev pub Properties : Type 0
Properties = List (Text × Value)

abbrev pub Interfaces : Type 0
Interfaces = List (Text × Properties)

abbrev pub Objects : Type 0
Objects = List (Text × Interfaces)

-- The body of an answer, by the shapes that the clients ask for with `Store`.
pub data Answer : Type 0 where
  no_body other_body : Answer
  value_body : Value → Answer
  strings_body paths_body : List Text → Answer
  rows_body : List (List Value) → Answer
  objects_body : Objects → Answer

pub record Call : Type 0 where
  pub service : String
  pub object : Text
  pub method : String
  pub args : List Value

-- The calls made so far, the latest first.
abbrev pub Calls : Type 0
Calls = List Call

-- `answer` is `CallWithContext`; `mismatch` is the error of `Store` for an answer of another shape.
pub record Bus : Type 0 where
  pub answer : Calls → Call → Result Text Answer
  pub mismatch : Text

unfoldable pub send : Bus → Calls → Call → Result Text Answer × Calls
send bus calls c = (bus.answer calls c, c ∷ calls)

-- The errors of the clients and of the modules that use them: a fixed text, an action that is not
-- known, what failed with the error of the library, a device with a place where it is mounted, and an
-- error with a text in front of it.
pub data BusError : Type 0 where
  fixed : String → BusError
  unsupported_action : Text → BusError
  failed_call : Text → Text → BusError
  mounted_at : Text → Text → BusError
  from_library : Text → BusError
  wrapped : String → BusError → BusError

-- The connection of a client; it is nil if `connected` is false.
pub record Client : Type 0 where
  pub connected : Bool

abbrev pub new_client : Client
new_client = record { connected = true }

-- The answer to a call, with an error that says what was called.
abbrev pub labelled {ℓ} : {A : Type ℓ} → Text → Result Text A → Result BusError A
labelled what (err e) = err (failed_call what e)
labelled what (ok a) = ok a

-- The error of a call alone.
abbrev pub completed : Text → Result Text Answer → Result BusError (Unit {0})
completed what (err e) = err (failed_call what e)
completed what (ok a) = ok tt

pub data BusType : Type 0 where
  system_bus session_bus unset_bus : BusType
  other_bus : Text → BusType

unfoldable pub is_system_bus : BusType → Bool
is_system_bus system_bus = true
is_system_bus _ = false

pub record ConnectionConfig : Type 0 where
  pub address : Text
  pub bus : BusType
  pub enforce_peer_credentials : Bool
  pub optional : Bool

-- What the operating system and the D-Bus library answer, each with the error if there is one: the
-- look at the socket of the system bus, a dial of an address, the two steps of a handshake, and the
-- shared connections. `goos` is `runtime.GOOS`.
pub record Platform : Type 0 where
  pub goos : Text
  pub system_socket : Option Text
  pub dial_address : Text → Option Text
  pub authenticate : Option Text
  pub hello : Option Text
  pub open_session : Option Text
  pub open_system : Option Text

unfoldable pub new_connection_manager : ConnectionConfig → ConnectionConfig
new_connection_manager cfg = elim cfg.bus [ unset_bus ↦ record cfg { bus = system_bus } | _ ↦ cfg ]

-- `Connect`: its error.
unfoldable pub connect : Platform → ConnectionConfig → Option Text
unfolding is_system_bus
connect os cfg =
    if is_system_bus cfg.bus && is_nil cfg.address
    then elim os.system_socket [
      | none ↦ none
      | some e ↦
          if cfg.optional then none else some (codes "system bus socket is not available: " ++ e)
    ]
    else none

-- `fmt.Errorf("%w: …", ErrBusUnavailable, …)`.
unfoldable pub bus_unavailable : Text → Text
bus_unavailable s = codes "d-bus bus unavailable: " ++ s

-- The handshake behind a dial that went well.
unfoldable pub handshake : Platform → Result Text Client
unfolding bus_unavailable
handshake os = elim os.authenticate [
  | some e ↦ err (bus_unavailable (codes "auth: " ++ e))
  | none ↦ elim os.hello [
    | some e ↦ err (bus_unavailable (codes "hello: " ++ e))
    | none ↦ ok new_client
  ]
]

-- A connection, or the error that says that there is none.
unfoldable pub opened : Option Text → Result Text Client
unfolding bus_unavailable
opened none = ok new_client
opened (some e) = err (bus_unavailable e)

-- The choice of the bus behind the two checks of `Dial`.
unfoldable pub open_bus : Platform → ConnectionConfig → Result Text Client
unfolding handshake opened bus_unavailable
open_bus os cfg =
    if not (is_nil cfg.address)
    then elim (os.dial_address cfg.address) [
      | some e ↦ err (bus_unavailable e)
      | none ↦ handshake os
    ]
    else elim cfg.bus [ session_bus ↦ opened os.open_session | _ ↦ opened os.open_system ]

unfoldable pub dial : Platform → ConnectionConfig → Result Text Client
unfolding open_bus bus_unavailable is_system_bus
dial os cfg =
    if not (os.goos == codes "linux")
    then err (bus_unavailable (os.goos ++ codes " is not supported"))
    else if is_system_bus cfg.bus && is_nil cfg.address
    then elim os.system_socket [
      | some e ↦ err (bus_unavailable (codes "system bus socket missing: " ++ e))
      | none ↦ open_bus os cfg
    ]
    else open_bus os cfg
