-- ===== src/Secrets/Paths.antt =====
-- What `List` of internal/secrets/memory.go lists.
use porcelain.Prelude.{is_found, ◌&&◌, [], ◌∷◌, ◌≡◌, arith}
use porcelain.Text.{Text, has_prefix}
use porcelain.Text.Affix.{eq_iff}
use porcelain.Text.Dict.{Dict, find}
use porcelain.Text.Sort.{listed, IsSorted, sort_texts-IsSorted, listed-sort_texts}
use porcelain.Secrets.{SecretValue, MemoryStore, paths_below, list_secrets}

listed-paths_below :
    (path prefix : Text) (values : Dict SecretValue)
    → listed path (paths_below prefix values)
      ≡ (is_found (find path values) && has_prefix path prefix)
unfolding listed paths_below find
listed-paths_below path prefix [] = ground arith
listed-paths_below path prefix ((key, value) ∷ values) =
    let ih = listed-paths_below path prefix values in ground (arith, ih, eq_iff key path)

-- The paths of a listing are in order, and a path is among them exactly if it has a secret and
-- begins with the prefix.
pub list_secrets_lem :
    (m : MemoryStore) (prefix path : Text)
    → IsSorted (list_secrets m prefix)
      × (listed path (list_secrets m prefix)
          ≡ (is_found (find path m.values) && has_prefix path prefix))
unfolding list_secrets
list_secrets_lem m prefix path = (
  sort_texts-IsSorted (paths_below prefix m.values),
  cc (
    listed-sort_texts path (paths_below prefix m.values),
    listed-paths_below path prefix m.values,
  ),
)
