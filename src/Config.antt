-- ===== src/Config.antt =====
-- internal/config/config.go: the configuration that the environment gives. `os.Getenv` is a function
-- from names to texts, which is empty for a variable that is not set.
pub mod Laws
mod Tests
use porcelain.Prelude.{ℕ, Bool, List, [], ◌∷◌, if◌then◌else◌}
use porcelain.Text.{Text, codes, ◌==◌, trim_space, split}
use porcelain.Auth.{trimmed_parts}

pub record ServerConfig : Type 0 where
  pub address : Text
  pub enable_socket_activation : Bool

pub record AuthConfig : Type 0 where
  pub enabled : Bool
  pub issuer_url : Text
  pub client_id : Text
  pub client_secret_path : Text
  pub redirect_url : Text
  pub groups_claim : Text
  pub admin_group : Text

pub record DBusConfig : Type 0 where
  pub address : Text
  pub bus : Text
  pub enforce_peer_credentials : Bool
  pub optional : Bool

pub record SecretsConfig : Type 0 where
  pub backend : Text
  pub storage_dir : Text
  pub age_identity_path : Text
  pub age_recipient : Text

pub record CertificatesConfig : Type 0 where
  pub backend : Text
  pub common_name : Text
  pub dns_names : List Text
  pub valid_days : ℕ
  pub directory : Text

pub record Config : Type 0 where
  pub server : ServerConfig
  pub auth : AuthConfig
  pub dbus : DBusConfig
  pub secrets : SecretsConfig
  pub certificates : CertificatesConfig

module _ (getenv : Text → Text) where
  unfoldable pub env_or_default : Text → Text → Text
  env_or_default key fallback =
      let value = trim_space (getenv key) in if value == [] then fallback else value

  unfoldable pub csv_or_default : Text → List Text → List Text
  unfolding trimmed_parts
  csv_or_default key fallback =
      let value = trim_space (getenv key) in
      let out = trimmed_parts (split value b',') in
      if value == [] then fallback else elim out [ [] ↦ fallback | part ∷ parts ↦ part ∷ parts ]

  -- `envOrDefault(key, fallback) == "true"`.
  abbrev pub is_true : Text → Text → Bool
  is_true key fallback = env_or_default key fallback == codes "true"

  unfoldable pub load_from_env : Config
  unfolding env_or_default csv_or_default
  load_from_env = record {
    server = record {
      address = env_or_default (codes "PORCELAIN_ADDRESS") (codes ":8443");
      enable_socket_activation = is_true (codes "PORCELAIN_SOCKET_ACTIVATION") (codes "true");
    };
    auth = record {
      enabled = is_true (codes "PORCELAIN_AUTH_ENABLED") (codes "false");
      issuer_url = env_or_default (codes "PORCELAIN_DEX_ISSUER") (codes "https://dex.example.com");
      client_id = env_or_default (codes "PORCELAIN_DEX_CLIENT_ID") (codes "porcelain");
      client_secret_path =
          env_or_default (codes "PORCELAIN_DEX_CLIENT_SECRET_PATH")
            (codes "auth/dex/client-secret");
      redirect_url =
          env_or_default (codes "PORCELAIN_DEX_REDIRECT_URL") (codes "https://localhost/callback");
      groups_claim = env_or_default (codes "PORCELAIN_DEX_GROUPS_CLAIM") (codes "groups");
      admin_group = env_or_default (codes "PORCELAIN_ADMIN_GROUP") (codes "porcelain-admins");
    };
    dbus = record {
      address = env_or_default (codes "PORCELAIN_DBUS_ADDRESS") [];
      bus = env_or_default (codes "PORCELAIN_DBUS_BUS") (codes "system");
      enforce_peer_credentials = is_true (codes "PORCELAIN_DBUS_ENFORCE_PEER_CREDS") (codes "true");
      optional = is_true (codes "PORCELAIN_DBUS_OPTIONAL") (codes "false");
    };
    secrets = record {
      backend = env_or_default (codes "PORCELAIN_SECRETS_BACKEND") (codes "memory");
      storage_dir =
          env_or_default (codes "PORCELAIN_SECRETS_DIR") (codes "/var/lib/porcelain/secrets");
      age_identity_path = env_or_default (codes "PORCELAIN_AGE_IDENTITY") [];
      age_recipient = env_or_default (codes "PORCELAIN_AGE_RECIPIENT") [];
    };
    certificates = record {
      backend = env_or_default (codes "PORCELAIN_CERTIFICATES_BACKEND") (codes "selfsigned");
      common_name = env_or_default (codes "PORCELAIN_TLS_COMMON_NAME") (codes "localhost");
      dns_names = csv_or_default (codes "PORCELAIN_TLS_DNS_NAMES") (codes "localhost" ∷ []);
      valid_days = 30;
      directory = env_or_default (codes "PORCELAIN_TLS_DIR") (codes "/pki/server");
    };
  }
