-- ===== src/Certificates/Filesystem.antt =====
-- internal/secrets/filesystem.go: certificates that are read from a directory.
pub mod Laws
use porcelain.Prelude.{
  ℕ, String, Bool, List, [], ◌∷◌, ◌++◌, Option, none, some, if◌then◌else◌, Result, ok, err, is_nil,
}
use porcelain.Text.{Text, codes}
use porcelain.Text.Path.{clean}
use porcelain.Certificates.{Bytes, Crypto, Certificate, with_leaf}

pub data FilesystemError : Type 0 where
  no_directory not_implemented : FilesystemError
  read_failed : Text → Text → FilesystemError
  pair_failed : Text → FilesystemError
  ca_failed : Text → FilesystemError
  server_not_loaded ca_not_loaded : FilesystemError

-- `os.ReadFile`, as the files are at some moment.
pub record Disk : Type 0 where
  pub read_file : Text → Result Text Bytes

-- A reload reads three files, one after the other and without a lock: the disk may change in between.
pub record Moments : Type 0 where
  pub at_certificate : Disk
  pub at_key : Disk
  pub at_ca : Disk

module _ (c : Crypto) where
  open c use {Leaf, Pool, key_pair, append_certs, not_after}

  -- `server` is `none` before the first load, where Go has the zero value.
  pub record FilesystemStore : Type 0 where
    pub dir : Text
    pub server : Option (Certificate c)
    pub ca_pool : Option Pool
    pub leaf : Option Leaf

  -- `filepath.Join` with a directory, which is not empty.
  abbrev pub in_dir : FilesystemStore → Text → Text
  in_dir s file = clean (s.dir ++ codes "/" ++ file)

  -- The parse of the three files, and the store that holds them.
  unfoldable pub load :
      FilesystemStore → Bytes → Bytes → Bytes → Result FilesystemError FilesystemStore
  unfolding with_leaf
  load s cert key ca = elim (key_pair cert key) [
    | err e ↦ err (pair_failed e)
    | ok pair ↦ elim (append_certs ca) [
      | none ↦ err (ca_failed (in_dir s (codes "ca.crt")))
      | some pool ↦
          let server = with_leaf c pair in
          ok (record s { server = some server; ca_pool = some pool; leaf = server.leaf })
    ]
  ]

  -- `os.ReadFile` with the error that names the file.
  unfoldable pub read_named : Disk → Text → Result FilesystemError Bytes
  read_named disk path = elim (disk.read_file path) [
    | err e ↦ err (read_failed path e)
    | ok bytes ↦ ok bytes
  ]

  -- The store after a reload that goes well, or the error.
  unfoldable pub reloaded : Moments → FilesystemStore → Result FilesystemError FilesystemStore
  unfolding load read_named
  reloaded moments s = elim (read_named moments.at_certificate (in_dir s (codes "server.crt"))) [
    | err e ↦ err e
    | ok cert ↦ elim (read_named moments.at_key (in_dir s (codes "server.key"))) [
      | err e ↦ err e
      | ok key ↦ elim (read_named moments.at_ca (in_dir s (codes "ca.crt"))) [
        | err e ↦ err e
        | ok ca ↦ load s cert key ca
      ]
    ]
  ]

  -- `Renew`: the error if there is one, and the store, which is changed only if all went well.
  unfoldable pub renew : Moments → FilesystemStore → Option FilesystemError × FilesystemStore
  unfolding reloaded
  renew moments s = elim (reloaded moments s) [ err e ↦ (some e, s) | ok s' ↦ (none, s') ]

  unfoldable pub new_store : Moments → Text → Result FilesystemError FilesystemStore
  unfolding reloaded clean
  new_store moments dir =
      if is_nil dir
      then err no_directory
      else reloaded moments (record { dir = clean dir; server = none; ca_pool = none; leaf = none })

  -- `server.Leaf == nil` is the test for a store that holds no certificate.
  unfoldable pub get_certificate : FilesystemStore → Result FilesystemError (Certificate c)
  get_certificate s = elim s.server [
    | none ↦ err server_not_loaded
    | some server ↦ elim server.leaf [ none ↦ err server_not_loaded | some _ ↦ ok server ]
  ]

  unfoldable pub get_ca : FilesystemStore → Result FilesystemError Pool
  get_ca s = elim s.ca_pool [ none ↦ err ca_not_loaded | some pool ↦ ok pool ]

  unfoldable pub issue : FilesystemStore → Result FilesystemError (Certificate c)
  issue s = err not_implemented

  -- The end of the lifetime, and the time now.
  unfoldable pub get_expiry : ℕ → FilesystemStore → Result FilesystemError (ℕ × ℕ)
  get_expiry now s = elim s.leaf [
    | none ↦ err server_not_loaded
    | some leaf ↦ ok (not_after leaf, now)
  ]
