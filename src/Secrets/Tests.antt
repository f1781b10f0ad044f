-- ===== src/Secrets/Tests.antt =====
-- The secret store at concrete events.
use porcelain.Prelude.{false, arith, true, [], ◌∷◌, Option, none, some, ok, ◌≡◌, ◌≢◌, refl, map}
use porcelain.Text.{has_prefix, Text, codes, ◌==◌}
use porcelain.Text.Dict.{find, assign, erase}
use porcelain.Secrets.{
  SecretValue, MemoryStore, new_memory_store, watchers_of, get_secret, put_secret, stamped, watch,
  cancel, happen, happen_all, deleting,
}
use porcelain.Secrets.Laws.{
  any_closed, delivered, as_written, put_secret_writes, happen_all-put_secret,
}
use porcelain.Secrets.{list_secrets}
use porcelain.Text.Sort.{sort_texts}

abbrev token : Option SecretValue
token = some (record {
  data_bytes = 1 ∷ 2 ∷ [];
  version = [];
  created_at = none;
  expires_at = none;
  metadata = none;
})

abbrev path : Text
path = codes "auth"

put_secret_writes_example :
    (m' : MemoryStore) × (put_secret 5 path token (watch path new_memory_store) ≡ some m')
    × (get_secret m' path ≡ ok (as_written 5 token))
    × ((other : Text)
        → path ≢ other
        → get_secret m' other ≡ get_secret (watch path new_memory_store) other)
    × (watchers_of path m'
        ≡ map (delivered (as_written 5 token)) (watchers_of path (watch path new_memory_store)))
unfolding watchers_of watch find assign ◌==◌ any_closed
put_secret_writes_example = put_secret_writes 5 path token (watch path new_memory_store) refl

-- One watch that waits, and the same watch once its context has ended.
abbrev watched : MemoryStore
watched = record {
  values = [];
  watchers = (path, record { buffer = none; closed = false } ∷ []) ∷ [];
}

abbrev ended : MemoryStore
ended = record { values = []; watchers = (path, record { buffer = none; closed = true } ∷ []) ∷ [] }

happen_all-put_secret_example : put_secret 7 path token ended ≡ none
unfolding happen_all happen cancel watch watchers_of find assign erase ◌==◌
happen_all-put_secret_example =
    happen_all-put_secret path 0 (deleting (codes "x") ∷ []) watched ended 7 token (omega arith)
      refl

abbrev two_secrets : MemoryStore
two_secrets = record {
  values = (codes "b/x", stamped 1 token) ∷ (codes "a/y", stamped 1 token) ∷ [];
  watchers = [];
}

lists_below_prefix : list_secrets two_secrets (codes "a") ≡ codes "a/y" ∷ []
unfolding list_secrets sort_texts has_prefix
lists_below_prefix = refl
