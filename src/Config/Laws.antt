-- ===== src/Config/Laws.antt =====
-- What the rest of the program may rely on in a configuration from the environment.
use porcelain.Prelude.{true, List, [], ◌∷◌, ◌≡◌, ◌≢◌, ◌↔◌, inl, inr, refl, All, Bool-cases}
use porcelain.Text.{Text, codes, ◌==◌, trim_space, split}
use porcelain.Text.Affix.{eq_iff, eq_sound}
use porcelain.Text.Trim.{trim_space_idem}
use porcelain.Auth.{trimmed_parts}
use porcelain.Auth.Laws.{IsWord, trimmed_parts-IsWord}
use porcelain.Config.{csv_or_default, load_from_env, env_or_default}

-- A list of parts, or a list in its place if there are none.
by_parts :
    (out fallback : List Text)
    → (fallback ≢ []) × All IsWord fallback
    → All IsWord out
    → (elim out [ [] ↦ fallback | part ∷ parts ↦ part ∷ parts ] ≢ [])
      × All IsWord (elim out [ [] ↦ fallback | part ∷ parts ↦ part ∷ parts ])
by_parts [] fallback h k = h
by_parts (part ∷ parts) fallback h k = (λ e. cc, k)

admins_named : trim_space (codes "porcelain-admins") ≢ []
unfolding trim_space
admins_named e = cc

local_host : (codes "localhost" ∷ [] ≢ []) × All IsWord (codes "localhost" ∷ [])
unfolding trim_space
local_host = (λ e. cc, ((λ e. cc, refl), tt))

module _ (getenv : Text → Text) where
  env_or_default_named :
      (key fallback : Text)
      → trim_space fallback ≢ []
      → trim_space (env_or_default getenv key fallback) ≢ []
  unfolding env_or_default
  env_or_default_named key fallback h = elim (Bool-cases (trim_space (getenv key) == [])) [
    | inl e ↦ rw (env_or_default, e) h
    | inr e ↦
        rw (env_or_default, e, trim_space_idem (getenv key))
          (λ blank. cc (e, (eq_iff (trim_space (getenv key)) []).1 blank))
  ]

  env_or_default-eq-true_iff :
      (key : Text)
      → ((env_or_default getenv key (codes "false") == codes "true") ≡ true)
        ↔ (trim_space (getenv key) ≡ codes "true")
  unfolding env_or_default
  env_or_default-eq-true_iff key =
      let value = trim_space (getenv key) in
      elim (Bool-cases (value == [])) [
        | inl e ↦
            let blank : value ≡ [] = (eq_iff value []).0 e in
            rw (env_or_default, e)
              (
                λ h. absurd (cc (eq_sound (codes "false") (codes "true") h)),
                λ h. absurd (cc (blank, h)),
              )
        | inr e ↦ rw (env_or_default, e) (eq_iff value (codes "true"))
      ]

  csv_or_default_words :
      (key : Text) (fallback : List Text)
      → (fallback ≢ []) × All IsWord fallback
      → (csv_or_default getenv key fallback ≢ []) × All IsWord (csv_or_default getenv key fallback)
  unfolding csv_or_default
  csv_or_default_words key fallback h = elim (Bool-cases (trim_space (getenv key) == [])) [
    | inl e ↦ rw (csv_or_default, e) h
    | inr e ↦
        rw (csv_or_default, e)
          (by_parts (trimmed_parts (split (trim_space (getenv key)) b',')) fallback h
            (trimmed_parts-IsWord (split (trim_space (getenv key)) b',')))
  ]

  -- Whatever the environment says, the certificate has a DNS name, and each of its DNS names is
  -- trimmed and not blank; authentication is on exactly if its variable, trimmed, is "true"; and
  -- the administrators' group is not blank.
  pub load_from_env_lem :
      ((load_from_env getenv).certificates.dns_names ≢ [])
      × All IsWord (load_from_env getenv).certificates.dns_names
      × (((load_from_env getenv).auth.enabled ≡ true)
          ↔ (trim_space (getenv (codes "PORCELAIN_AUTH_ENABLED")) ≡ codes "true"))
      × (trim_space (load_from_env getenv).auth.admin_group ≢ [])
  unfolding load_from_env
  load_from_env_lem =
      let names =
        csv_or_default_words (codes "PORCELAIN_TLS_DNS_NAMES") (codes "localhost" ∷ [])
          local_host in
      (
        names.0,
        names.1,
        env_or_default-eq-true_iff (codes "PORCELAIN_AUTH_ENABLED"),
        env_or_default_named (codes "PORCELAIN_ADMIN_GROUP") (codes "porcelain-admins")
            admins_named,
      )
