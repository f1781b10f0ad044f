-- ===== src/Server/UserMenu/Tests.antt =====
-- The user menu on concrete identities.
use porcelain.Prelude.{[], ◌∷◌, none, some, ◌≡◌, ◌↔◌, refl}
use porcelain.Text.{codes, trim_space, index, to_upper}
use porcelain.Auth.{Claims}
use porcelain.Server.{PeerIdentity}
use porcelain.Server.UserMenu.{build_user_info, block_of}
use porcelain.Server.UserMenu.Laws.{ShowsBad, build_user_info-eq-none_iff}

abbrev ann : PeerIdentity
ann = record {
  common_name = codes "ann.lee";
  organizations = [];
  dns_names = [];
  email_addresses = [] ∷ codes "ann@x" ∷ [];
  serial_number = [];
  fingerprint_sha256 = [];
  issuer_common_name = [];
}

abbrev at_sign : Claims
at_sign = record { subject = codes "@ann"; groups = []; token = [] }

build_user_info_example :
    (build_user_info none (some ann) (some at_sign) ≡ none)
    ↔ ShowsBad none (some ann) (some at_sign)
build_user_info_example = build_user_info-eq-none_iff none (some ann) (some at_sign)

-- Where the array behind an empty slice has room, the monogram is what stands there.
shows_room :
    build_user_info (some (0 ∷ [])) none (some at_sign)
    ≡ some (record { name = codes "@ann"; initials = 0 ∷ []; email = []; groups = [] })
unfolding build_user_info trim_space index to_upper
shows_room = refl

shows_certificate :
    build_user_info none (some ann) none
    ≡ some (record {
      name = codes "ann.lee";
      initials = codes "AL";
      email = codes "ann@x";
      groups = [];
    })
unfolding build_user_info trim_space index to_upper
shows_certificate = refl

boosted_is_full : block_of (codes "true") (codes "true") ≡ codes "base"
unfolding block_of
boosted_is_full = refl
