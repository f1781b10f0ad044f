-- ===== src/Secrets/SystemdCreds/Tests.antt =====
-- Credentials in a directory that is a list of files.
use porcelain.Prelude.{Bool, true, false, ◌&&◌, List, [], ◌∷◌, none, some, ok, err, ◌≡◌, refl}
use porcelain.Text.{Text, codes, has_prefix}
use porcelain.Text.Sort.{listed, IsSorted, sort_texts}
use porcelain.Secrets.SystemdCreds.{
  CredsHost, SystemdCredsStore, decrypt_failed, no_such_file, file_path, get, put, delete, list,
}
use porcelain.Secrets.SystemdCreds.Laws.{has_file, list_lem}

-- Nothing can be decrypted; the state is what `WalkDir` finds.
abbrev sealed : CredsHost
sealed = record {
  State = List (Text × Bool);
  tool_found = none;
  directory = λ file. file;
  make_directory = λ dir st. (none, st);
  encrypt = λ file bytes st. (none, (file, false) ∷ st);
  decrypt = λ file st. err (codes "exit status 1");
  remove = λ file st. (some no_such_file, st);
  walk = λ dir st. ok st;
}

abbrev store : SystemdCredsStore
store = record { storage_dir = codes "/var/lib/porcelain" }

abbrev found : List (Text × Bool)
found =
    (codes "tls", true)
    ∷ (codes "tls/key.cred", false)
    ∷ (codes "tls/ca.cred", false)
    ∷ (codes "notes.txt", false)
    ∷ []

list_lem_example :
    (paths : List Text) × (list sealed store (codes "tls/") found ≡ ok paths)
    × IsSorted paths
    × (listed (codes "tls/ca") paths
        ≡ (has_file (codes "tls/ca.cred") found && has_prefix (codes "tls/ca") (codes "tls/")))
list_lem_example = list_lem sealed store (codes "tls/") (codes "tls/ca") found found refl

lists_in_order : list sealed store (codes "tls/") found ≡ ok (codes "tls/ca" ∷ codes "tls/key" ∷ [])
unfolding list sort_texts has_prefix
lists_in_order = refl

tells_path :
    get sealed store (codes "tls/ca") found
    ≡ err (decrypt_failed (codes "tls/ca") (codes "exit status 1"))
unfolding get
tells_path = refl

-- A path may leave the directory of the store.
leaves_directory : file_path store (codes "../x") ≡ codes "/var/lib/x.cred"
unfolding file_path
leaves_directory = refl

deletes_what_is_gone : delete sealed store (codes "a") found ≡ (none, found)
unfolding delete
deletes_what_is_gone = refl

writes_one_file :
    put sealed store (codes "a//b") (1 ∷ []) []
    ≡ (none, (codes "/var/lib/porcelain/a/b.cred", false) ∷ [])
unfolding put
writes_one_file = refl
