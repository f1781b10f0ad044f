-- ===== src/Config/Tests.antt =====
-- The configuration of an environment in which authentication is on.
use porcelain.Prelude.{true, [], ◌≡◌, ◌≢◌, ◌↔◌, All, if◌then◌else◌}
use porcelain.Text.{Text, codes, ◌==◌, trim_space}
use porcelain.Auth.Laws.{IsWord}
use porcelain.Config.{load_from_env}
use porcelain.Config.Laws.{load_from_env_lem}

abbrev guarded : Text → Text
guarded key = if key == codes "PORCELAIN_AUTH_ENABLED" then codes " true " else []

load_from_env_lem_example :
    ((load_from_env guarded).certificates.dns_names ≢ [])
    × All IsWord (load_from_env guarded).certificates.dns_names
    × (((load_from_env guarded).auth.enabled ≡ true)
        ↔ (trim_space (guarded (codes "PORCELAIN_AUTH_ENABLED")) ≡ codes "true"))
    × (trim_space (load_from_env guarded).auth.admin_group ≢ [])
load_from_env_lem_example = load_from_env_lem guarded
