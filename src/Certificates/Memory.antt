-- ===== src/Certificates/Memory.antt =====
-- The memory store as the secret store under self-signed certificates: it keeps what the interface
-- asks for, so certificates can be loaded again and the server keeps one.
use porcelain.Prelude.{
  ℕ, false, List, [], Option, none, some, some_inj, Result, ok, err, ◌≡◌, ◌≢◌, refl, Bool-cases,
  inl, inr, ap, sym, ◌∙◌, subst,
}
use porcelain.Text.{Text, ◌==◌}
use porcelain.Text.Affix.{eq_iff, eq_sound}
use porcelain.Text.Dict.{find, find-assign, find-assign_other, assign}
use porcelain.Secrets.{
  SecretValue, SecretError, MemoryStore, new_memory_store, get_secret, put_secret, stamped,
  clone_secret_value, watchers_of, fan_out,
}
use porcelain.Secrets.Laws.{any_closed, put_secret-eq-none_iff, put_secret_stored}
use porcelain.Certificates.{Bytes, SecretStore, Lawful, Crypto, Certificate}
use porcelain.Certificates.SelfSigned.{SelfSignedStore, self_signed_store}
use porcelain.Certificates.SelfSigned.Returns.{PutReturns, self_signed_store-Returns}
use porcelain.Certificates.Manager.{TlsManager, present, tick_all}
use porcelain.Certificates.Manager.Laws.{tick_all-IsServing}

-- The secret value that holds some bytes.
abbrev holding : Bytes → SecretValue
holding bytes = record {
  data_bytes = bytes;
  version = [];
  created_at = none;
  expires_at = none;
  metadata = none;
}

abbrev read_bytes : Result SecretError SecretValue → Result SecretError Bytes
read_bytes (err e) = err e
read_bytes (ok value) = ok value.data_bytes

abbrev written : Option MemoryStore → Option (Result SecretError (Unit {0}) × MemoryStore)
written none = none
written (some m) = some (ok tt, m)

abbrev pub memory_store : SecretStore
memory_store = record {
  State = MemoryStore;
  Error = SecretError;
  get = λ m path. read_bytes (get_secret m path);
  put = λ now path bytes m. written (put_secret now path (some (holding bytes)) m);
}

-- A write that returns is one on a path without closed channels.
open_of_put :
    (now : ℕ) (path : Text) (value : Option SecretValue) (m m' : MemoryStore)
    → put_secret now path value m ≡ some m'
    → any_closed (watchers_of path m) ≡ false
open_of_put now path value m m' e = elim (Bool-cases (any_closed (watchers_of path m))) [
  | inr open_now ↦ open_now
  | inl closed ↦ absurd (cc ((put_secret-eq-none_iff now path value m).1 closed, e))
]

stamped_bytes : (now : ℕ) (bytes : Bytes) → (stamped now (some (holding bytes))).data_bytes ≡ bytes
unfolding stamped clone_secret_value
stamped_bytes now bytes = refl

written_inv :
    (o : Option MemoryStore) (m' : MemoryStore) → written o ≡ some (ok tt, m') → o ≡ some m'
written_inv none m' e = cc
written_inv (some m) m' e = ap some (ap (λ r. r.1) (some_inj e))

-- What a write that returns has done.
write_lem :
    (now : ℕ) (path : Text) (bytes : Bytes) (m m' : MemoryStore)
    → put_secret now path (some (holding bytes)) m ≡ some m'
    → (get_secret m' path ≡ ok (stamped now (some (holding bytes))))
      × ((other : Text) → path ≢ other → get_secret m' other ≡ get_secret m other)
write_lem now path bytes m m' e =
    let value = some (holding bytes) in
    let (m'', put, reads, others, _) =
      put_secret_stored now path value m (open_of_put now path value m m' e) in
    let same = some_inj (sym put ∙ e) in
    subst
      (λ x.
        (get_secret x path ≡ ok (stamped now value))
        × ((other : Text) → path ≢ other → get_secret x other ≡ get_secret m other))
      same (reads, others)

-- The memory store is a secret store: what was put is read again, and other paths are left alone.
pub memory_store-Lawful : Lawful memory_store
memory_store-Lawful = record {
  get-put = λ now path bytes m m' e.
      let (reads, _) = write_lem now path bytes m m' (written_inv _ m' e) in
      ap read_bytes reads ∙ ap ok (stamped_bytes now bytes);
  get-put_other = λ now path other bytes m m' e differs.
      let (_, others) = write_lem now path bytes m m' (written_inv _ m' e) in
      ap read_bytes (others other differs);
}

-- Nobody watches any path of the store, as in the program, which never calls `Watch`.
abbrev pub IsUnwatched : MemoryStore → Type 0
IsUnwatched m = (path : Text) → watchers_of path m ≡ []

pub new_memory_store-IsUnwatched : IsUnwatched new_memory_store
unfolding watchers_of find
new_memory_store-IsUnwatched path = refl

put_secret-IsUnwatched :
    (now : ℕ) (path : Text) (value : Option SecretValue) (m : MemoryStore)
    → IsUnwatched m
    → (m' : MemoryStore) × (put_secret now path value m ≡ some m') × IsUnwatched m'
unfolding put_secret fan_out watchers_of
put_secret-IsUnwatched now path value m h = (
  record {
    values = assign path (stamped now value) m.values;
    watchers = assign path [] m.watchers;
  },
  rw (put_secret, h path, fan_out) refl,
  λ other. elim (Bool-cases (path == other)) [
    | inl same ↦
        rw (watchers_of, sym (eq_sound path other same), find-assign path [] m.watchers) refl
    | inr differs ↦
        rw
          (
            watchers_of,
            find-assign_other path other [] m.watchers (λ e. cc ((eq_iff path other).1 e, differs)),
          )
          (h other)
  ],
)

memory_store-PutReturns : PutReturns memory_store IsUnwatched
memory_store-PutReturns = record {
  put_returns = λ now path bytes m h.
      let (m', put, h') = put_secret-IsUnwatched now path (some (holding bytes)) m h in
      (ok tt, m', ap written put, h');
}

module _ (c : Crypto) (config : SelfSignedStore) where
  -- Over the memory store, a server that has started, and so has a certificate, goes through any
  -- number of renewals, whatever comes of them, and can still present a certificate to every
  -- handshake.
  pub tick_all-present :
      (moments : List ℕ) (m : TlsManager (self_signed_store c memory_store config))
      (cert : Certificate c)
      → IsUnwatched m.store
      → m.cert ≡ some cert
      → (m' : TlsManager (self_signed_store c memory_store config)) × (last : Certificate c)
        × (tick_all (self_signed_store c memory_store config) moments m ≡ some m')
        × (present (self_signed_store c memory_store config) m' ≡ ok last)
  unfolding present
  tick_all-present moments m cert unwatched has =
      let (m', ticked, ((last, shown), _)) =
        tick_all-IsServing (self_signed_store c memory_store config) IsUnwatched
          (self_signed_store-Returns c memory_store config IsUnwatched memory_store-PutReturns)
          moments m ((cert, has), unwatched) in
      (m', last, ticked, rw (present, shown) refl)
