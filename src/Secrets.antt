-- ===== src/Secrets.antt =====
-- internal/secrets/memory.go: the secret store of a development host.
-- A channel of capacity 1 holds at most one value. A send on a closed channel panics in Go: an
-- operation that panics is `none`. The locks make each operation one step.
pub mod Laws
pub mod Paths
pub mod SystemdCreds
mod Tests
use porcelain.Prelude.{
  suc, zero, ℕ, Bool, true, false, List, [], ◌∷◌, ◌++◌, Option, none, some, if◌then◌else◌, Result,
  ok, err,
}
use porcelain.Text.{Text, has_prefix}
use porcelain.Text.Sort.{sort_texts}
use porcelain.Text.Dict.{Dict, find, assign, erase}

-- `created_at` is `none` for Go's zero time, `expires_at` and `metadata` for nil.
pub record SecretValue : Type 0 where
  pub data_bytes : List ℕ
  pub version : Text
  pub created_at : Option ℕ
  pub expires_at : Option ℕ
  pub metadata : Option (Dict Text)

-- A watcher's channel.
pub record Channel : Type 0 where
  pub buffer : Option SecretValue
  pub closed : Bool

pub record MemoryStore : Type 0 where
  pub values : Dict SecretValue
  pub watchers : Dict (List Channel)

-- The one error of `Get`: no secret at the path.
pub data SecretError : Type 0 where
  not_found : Text → SecretError

abbrev pub new_memory_store : MemoryStore
new_memory_store = record { values = []; watchers = [] }

-- A missing key of a map of slices reads as the empty slice.
unfoldable pub watchers_of : Text → MemoryStore → List Channel
watchers_of path m = elim (find path m.watchers) [ none ↦ [] | some channels ↦ channels ]

-- A copy has the same fields; a nil pointer gives the zero value.
unfoldable pub clone_secret_value : Option SecretValue → SecretValue
clone_secret_value none = record {
  data_bytes = [];
  version = [];
  created_at = none;
  expires_at = none;
  metadata = none;
}
clone_secret_value (some value) = value

unfoldable pub get_secret : MemoryStore → Text → Result SecretError SecretValue
unfolding clone_secret_value
get_secret m path = elim (find path m.values) [
  | none ↦ err (not_found path)
  | some value ↦ ok (clone_secret_value (some value))
]

-- A send that does not block: on a full channel the value is dropped.
unfoldable pub offer : SecretValue → Channel → Option Channel
offer value c =
    if c.closed
    then none
    else elim c.buffer [ none ↦ some (record c { buffer = some value }) | some _ ↦ some c ]

-- The loop of `Put` over the watchers of the path.
unfoldable pub fan_out : SecretValue → List Channel → Option (List Channel)
unfolding offer
fan_out value [] = some []
fan_out value (c ∷ channels) =
    let rest = fan_out value channels in
    elim (offer value c) [
      | none ↦ none
      | some c' ↦ elim rest [ none ↦ none | some channels' ↦ some (c' ∷ channels') ]
    ]

-- The value that `Put` stores at the time `now`.
unfoldable pub stamped : ℕ → Option SecretValue → SecretValue
unfolding clone_secret_value
stamped now value =
    let cloned = clone_secret_value value in
    elim cloned.created_at [ none ↦ record cloned { created_at = some now } | some _ ↦ cloned ]

unfoldable pub put_secret : ℕ → Text → Option SecretValue → MemoryStore → Option MemoryStore
unfolding stamped fan_out watchers_of
put_secret now path value m =
    let cloned = stamped now value in
    elim (fan_out cloned (watchers_of path m)) [
      | none ↦ none
      | some channels ↦ some (record {
        values = assign path cloned m.values;
        watchers = assign path channels m.watchers;
      })
    ]

unfoldable pub delete_secret : Text → MemoryStore → MemoryStore
delete_secret path m = record m { values = erase path m.values }

-- The paths below a prefix, in the order in which Go happens to iterate over the map.
unfoldable pub paths_below : Text → Dict SecretValue → List Text
paths_below prefix [] = []
paths_below prefix ((path, _) ∷ values) =
    let rest = paths_below prefix values in if has_prefix path prefix then path ∷ rest else rest

unfoldable pub list_secrets : MemoryStore → Text → List Text
unfolding paths_below
list_secrets m prefix = sort_texts (paths_below prefix m.values)

-- `Watch`: a new channel at the end of the path's list.
unfoldable pub watch : Text → MemoryStore → MemoryStore
unfolding watchers_of
watch path m = record m {
  watchers =
      assign path (watchers_of path m ++ record { buffer = none; closed = false } ∷ []) m.watchers;
}

-- Changes one channel of a list, by its position.
unfoldable pub change_at : (Channel → Channel) → ℕ → List Channel → List Channel
change_at f i [] = []
change_at f zero (c ∷ channels) = f c ∷ channels
change_at f (suc i) (c ∷ channels) = c ∷ change_at f i channels

abbrev pub close_channel : Channel → Channel
close_channel c = record c { closed = true }

-- The end of the context of the watch with the given position on its path: the goroutine that
-- `Watch` starts closes the channel.
unfoldable pub cancel : Text → ℕ → MemoryStore → MemoryStore
unfolding watchers_of change_at
cancel path i m = record m {
  watchers = assign path (change_at close_channel i (watchers_of path m)) m.watchers;
}

abbrev pub drain_channel : Channel → Channel
drain_channel c = record c { buffer = none }

-- A watcher takes the value out of its channel.
unfoldable pub receive : Text → ℕ → MemoryStore → MemoryStore
unfolding watchers_of change_at
receive path i m = record m {
  watchers = assign path (change_at drain_channel i (watchers_of path m)) m.watchers;
}

-- What may happen to a store.
pub data Event : Type 0 where
  putting : ℕ → Text → Option SecretValue → Event
  deleting watching : Text → Event
  cancelling receiving : Text → ℕ → Event

unfoldable pub happen : Event → MemoryStore → Option MemoryStore
unfolding put_secret delete_secret watch cancel receive
happen (putting now path value) m = put_secret now path value m
happen (deleting path) m = some (delete_secret path m)
happen (watching path) m = some (watch path m)
happen (cancelling path i) m = some (cancel path i m)
happen (receiving path i) m = some (receive path i m)

unfoldable pub happen_all : List Event → MemoryStore → Option MemoryStore
unfolding happen
happen_all [] m = some m
happen_all (e ∷ events) m = elim (happen e m) [ none ↦ none | some m' ↦ happen_all events m' ]
