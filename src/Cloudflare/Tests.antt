-- ===== src/Cloudflare/Tests.antt =====
-- Names of tunnels.
use porcelain.Prelude.{◌≡◌, ◌≢◌, ◌⊎◌, ◌++◌, [], ◌∷◌, none, ok, refl, All}
use porcelain.Text.{Text, codes}
use porcelain.Host.{Host, command}
use porcelain.Cloudflare.{
  Module, present, restart_tunnel_container, sanitize_tunnel_name, replace_runs,
}
use porcelain.Cloudflare.Laws.{IsNameChar, sanitize_tunnel_name_clean, restart_tunnel_container_lem}

abbrev hostile : Text
hostile = codes " ../etc; rm -rf "

sanitize_hostile : sanitize_tunnel_name hostile ≡ codes "etc-rm--rf"
unfolding sanitize_tunnel_name replace_runs
sanitize_hostile = refl

sanitize_tunnel_name_clean_example :
    All IsNameChar (sanitize_tunnel_name hostile)
    × (sanitize_tunnel_name (sanitize_tunnel_name hostile) ≡ sanitize_tunnel_name hostile)
sanitize_tunnel_name_clean_example = sanitize_tunnel_name_clean hostile

abbrev quiet : Host
quiet = record { run = λ w c. record { output = []; failure = none }; now = λ w. 0 }

abbrev installed : Module
installed = record { mode = present }

restart_tunnel_container_example :
    ((restart_tunnel_container quiet installed hostile []).1 ≡ [])
      × ((restart_tunnel_container quiet installed hostile []).0 ≢ ok tt)
    ⊎ ((name : Text) × (name ≢ [])
        × All IsNameChar name
        × ((restart_tunnel_container quiet installed hostile []).1
            ≡ command (codes "podman") (codes "restart" ∷ (codes "cloudflared-" ++ name) ∷ [])
              ∷ []))
restart_tunnel_container_example = restart_tunnel_container_lem quiet installed hostile []
