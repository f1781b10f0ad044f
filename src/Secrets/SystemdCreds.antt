-- ===== src/Secrets/SystemdCreds.antt =====
-- internal/secrets/systemd_creds.go: secrets that `systemd-creds` keeps in encrypted files. The tool
-- and the file system are a parameter with a state of its own.
pub mod Laws
mod Tests
use porcelain.Prelude.{
  ℕ, Bool, true, false, ◌||◌, ◌&&◌, not, List, [], ◌∷◌, ◌++◌, Option, none, some, Result, ok, err,
  if◌then◌else◌, is_nil,
}
use porcelain.Text.{Text, codes, has_prefix, has_suffix, trim_suffix, trim_space}
use porcelain.Text.Path.{clean}
use porcelain.Text.Sort.{sort_texts}

abbrev pub Bytes : Type 0
Bytes = List ℕ

-- What `os.Remove` says of a file.
pub data RemoveError : Type 0 where
  no_such_file : RemoveError
  remove_failed : Text → RemoveError

-- `LookPath` of the tool, `MkdirAll`, `filepath.Dir`, the two calls of the tool with what they print,
-- `Remove`, and the files below a directory as `WalkDir` and `Rel` name them, each with whether it is
-- a directory.
pub record CredsHost : Type 1 where
  pub State : Type 0
  pub tool_found : Option Text
  pub directory : Text → Text
  pub make_directory : Text → State → Option Text × State
  pub encrypt : Text → Bytes → State → Option (Text × Text) × State
  pub decrypt : Text → State → Result Text Bytes
  pub remove : Text → State → Option RemoveError × State
  pub walk : Text → State → Result Text (List (Text × Bool))

pub data CredsError : Type 0 where
  tool_missing directory_failed parent_failed list_failed : Text → CredsError
  decrypt_failed delete_failed : Text → Text → CredsError
  encrypt_failed : Text → Text → Text → CredsError
  not_implemented : CredsError

pub record SystemdCredsStore : Type 0 where
  pub storage_dir : Text

-- `filepath.Join` of two elements, of which the second is not empty.
abbrev joined : Text → Text → Text
joined dir file = clean (if is_nil dir then file else dir ++ b'/' ∷ file)

unfoldable pub file_path : SystemdCredsStore → Text → Text
unfolding clean
file_path s path = joined s.storage_dir (path ++ codes ".cred")

-- The names of the files that are credentials, without their suffix, and that begin with the prefix.
unfoldable pub matches : Text → List (Text × Bool) → List Text
unfolding has_suffix has_prefix trim_suffix
matches prefix [] = []
matches prefix ((name, is_dir) ∷ files) =
    let rest = matches prefix files in
    let normalized = trim_suffix name (codes ".cred") in
    if is_dir || not (has_suffix name (codes ".cred"))
    then rest
    else if has_prefix normalized prefix
    then normalized ∷ rest
    else rest

module _ (host : CredsHost) where
  open host use {State, tool_found, directory, make_directory, encrypt, decrypt, remove, walk}

  unfoldable pub new_systemd_creds_store :
      Text → State → Result CredsError SystemdCredsStore × State
  new_systemd_creds_store dir st = elim tool_found [
    | some e ↦ (err (tool_missing e), st)
    | none ↦
        let (failure, st') = make_directory dir st in
        (
          elim failure [
            | some e ↦ err (directory_failed e)
            | none ↦ ok (record { storage_dir = dir })
          ],
          st',
        )
  ]

  unfoldable pub get : SystemdCredsStore → Text → State → Result CredsError Bytes
  unfolding file_path
  get s path st = elim (decrypt (file_path s path) st) [
    | err e ↦ err (decrypt_failed path e)
    | ok bytes ↦ ok bytes
  ]

  -- The call of the tool behind the parent directory.
  unfoldable pub encrypted : SystemdCredsStore → Text → Bytes → State → Option CredsError × State
  unfolding file_path trim_space
  encrypted s path bytes st =
      let (failure, st') = encrypt (file_path s path) bytes st in
      (
        elim failure [
          | some (e, output) ↦ some (encrypt_failed path e (trim_space output))
          | none ↦ none
        ],
        st',
      )

  unfoldable pub put : SystemdCredsStore → Text → Bytes → State → Option CredsError × State
  unfolding encrypted file_path
  put s path bytes st =
      let (failure, st') = make_directory (directory (file_path s path)) st in
      elim failure [ some e ↦ (some (parent_failed e), st') | none ↦ encrypted s path bytes st' ]

  unfoldable pub delete : SystemdCredsStore → Text → State → Option CredsError × State
  unfolding file_path
  delete s path st =
      let (failure, st') = remove (file_path s path) st in
      (
        elim failure [
          | none ↦ none
          | some no_such_file ↦ none
          | some (remove_failed e) ↦ some (delete_failed path e)
        ],
        st',
      )

  unfoldable pub list : SystemdCredsStore → Text → State → Result CredsError (List Text)
  unfolding matches sort_texts
  list s prefix st = elim (walk s.storage_dir st) [
    | err e ↦ err (list_failed e)
    | ok files ↦ ok (sort_texts (matches prefix files))
  ]

  unfoldable pub watch : Result CredsError (Unit {0})
  watch = err not_implemented
