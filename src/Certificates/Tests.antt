-- ===== src/Certificates/Tests.antt =====
-- Certificate stores over a toy cryptography, and their theorems.
use porcelain.Prelude.{ℕ, [], ◌∷◌, some, ok, err, ◌≡◌, refl}
use porcelain.Text.{codes, ◌==◌}
use porcelain.Secrets.{MemoryStore, new_memory_store, put_secret, fan_out, watchers_of}
use porcelain.Text.Dict.{find, assign}
use porcelain.Certificates.{Bytes, Crypto, Certificate, CertificateRequest, ed25519, with_leaf}
use porcelain.Certificates.SelfSigned.{
  SelfSignedStore, self_signed_store, get_certificate, certificate_name, issue, keep,
  issue_self_signed_pair, draw_key, sign,
}
use porcelain.Certificates.SelfSigned.Laws.{get_certificate-issue}
use porcelain.Certificates.Manager.{TlsManager, present, tick_all}
use porcelain.Certificates.Memory.{
  memory_store, memory_store-Lawful, new_memory_store-IsUnwatched, tick_all-present,
}
use porcelain.Certificates.Filesystem.{
  Disk, Moments, FilesystemStore, new_store, reloaded, load, read_named,
}
use porcelain.Certificates.Filesystem.Laws.{
  IsLoadedFrom, renew_all, SomeReload, renew_all-IsLoadedFrom,
}

-- A certificate is the text of its subject, and every key fits every certificate.
abbrev toy : Crypto
toy = record {
  Key = ℕ;
  Pair = Bytes;
  Leaf = Bytes;
  Pool = Bytes;
  draw_serial = λ now. ok now;
  draw_rsa = λ now. ok now;
  draw_ed25519 = λ now. ok now;
  marshal_rsa = λ key. key ∷ [];
  marshal_ed25519 = λ key. ok (key ∷ []);
  create_certificate = λ template key. ok template.subject;
  encode_pem = λ label bytes. bytes;
  key_pair = λ cert key. ok cert;
  chain = λ pair. pair ∷ [];
  parse_certificate = λ bytes. some bytes;
  append_certs = λ bytes. some bytes;
  not_after = λ leaf. 0;
}

abbrev config : SelfSignedStore
config = record { default_common_name = codes "porcelain"; default_dns_names = []; valid_days = 30 }

abbrev request : CertificateRequest
request = record { common_name = codes "host"; dns_names = []; validity = 0; key_type = ed25519 }

abbrev host_certificate : Certificate toy
host_certificate = record { pair = codes "host"; leaf = some (codes "host") }

-- The store after the certificate was issued.
issued :
    (st : MemoryStore) × (issue toy memory_store config 7 request new_memory_store
      ≡ some (ok host_certificate, st))
unfolding issue issue_self_signed_pair draw_key sign keep certificate_name with_leaf put_secret
    fan_out watchers_of find assign ◌==◌
issued = (_, refl)

get_certificate-issue_example :
    get_certificate toy memory_store issued.0 (certificate_name toy memory_store config request)
    ≡ ok host_certificate
get_certificate-issue_example =
    get_certificate-issue toy memory_store config 7 request host_certificate new_memory_store
      issued.0 memory_store-Lawful issued.1

-- A server that has started.
abbrev serving : TlsManager (self_signed_store toy memory_store config)
serving = record {
  cert_name = codes "host";
  cert = some host_certificate;
  store = new_memory_store;
}

tick_all-present_example :
    (m' : TlsManager (self_signed_store toy memory_store config)) × (last : Certificate toy)
    × (tick_all (self_signed_store toy memory_store config) (8 ∷ 9 ∷ []) serving ≡ some m')
    × (present (self_signed_store toy memory_store config) m' ≡ ok last)
tick_all-present_example =
    tick_all-present toy config (8 ∷ 9 ∷ []) serving host_certificate new_memory_store-IsUnwatched
      refl

-- A disk on which every file holds its own path, and one that cannot be read.
abbrev good_disk : Disk
good_disk = record { read_file = λ path. ok path }

abbrev bad_disk : Disk
bad_disk = record { read_file = λ path. err (codes "input/output error") }

abbrev all_good : Moments
all_good = record { at_certificate = good_disk; at_key = good_disk; at_ca = good_disk }

-- The disk fails after the second file.
abbrev late_failure : Moments
late_failure = record { at_certificate = good_disk; at_key = good_disk; at_ca = bad_disk }

started : (s : FilesystemStore toy) × (new_store toy all_good (codes "/pki") ≡ ok s)
unfolding new_store reloaded load read_named with_leaf
started = (_, refl)

renew_all-IsLoadedFrom_example :
    SomeReload toy
      (λ moments. IsLoadedFrom toy moments (renew_all toy (late_failure ∷ []) started.0))
      (all_good ∷ late_failure ∷ [])
renew_all-IsLoadedFrom_example =
    renew_all-IsLoadedFrom toy all_good (late_failure ∷ []) (codes "/pki") started.0 started.1
