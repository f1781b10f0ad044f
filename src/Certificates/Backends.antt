-- ===== src/Certificates/Backends.antt =====
-- internal/secrets/backend.go: the choice of the stores from the configuration.
use porcelain.Prelude.{[], ◌||◌, if◌then◌else◌, Result, ok, err}
use porcelain.Text.{Text, codes, ◌==◌}
use porcelain.Config.{SecretsConfig, CertificatesConfig}

pub data SecretsBackend : Type 0 where
  memory_backend systemd_creds_backend age_backend vault_backend : SecretsBackend

pub data CertificatesBackend : Type 0 where
  self_signed_backend filesystem_backend cert_manager_backend vault_pki_backend :
      CertificatesBackend

-- Which constructor `NewSecretStore` calls; `err` holds a backend that is not supported.
unfoldable pub new_secret_store : SecretsConfig → Result Text SecretsBackend
unfolding ◌==◌
new_secret_store cfg =
    if cfg.backend == [] || cfg.backend == codes "memory"
    then ok memory_backend
    else if cfg.backend == codes "systemd-creds"
    then ok systemd_creds_backend
    else if cfg.backend == codes "age"
    then ok age_backend
    else if cfg.backend == codes "vault"
    then ok vault_backend
    else err cfg.backend

unfoldable pub new_certificate_store : CertificatesConfig → Result Text CertificatesBackend
unfolding ◌==◌
new_certificate_store cfg =
    if cfg.backend == [] || cfg.backend == codes "selfsigned"
    then ok self_signed_backend
    else if cfg.backend == codes "filesystem"
    then ok filesystem_backend
    else if cfg.backend == codes "cert-manager"
    then ok cert_manager_backend
    else if cfg.backend == codes "vault-pki"
    then ok vault_pki_backend
    else err cfg.backend
