-- ===== src/Auth/Tests.antt =====
-- Runs of the authentication middleware, and its theorems at concrete headers.
use porcelain.Prelude.{true, false, [], ◌∷◌, ◌++◌, none, some, ◌≡◌, refl, ◌↔◌}
use porcelain.Text.{Text, codes, ◌==◌, trim_space, trim_prefix, split}
use porcelain.Auth.{Claims, Headers, extract_claims, middleware, go_on, unauthorized, bearer}
use porcelain.Auth.Laws.{claims_with, extract_claims_iff}

abbrev headers : Text → Headers
headers authorization = record {
  authorization = authorization;
  porcelain_groups = codes " porcelain-admins,, dev ";
  porcelain_subject = [];
}

abbrev signed_in : Headers
signed_in = headers (codes " Bearer t0 ")

abbrev ann : Claims
ann = record {
  subject = codes "unknown";
  groups = codes "porcelain-admins" ∷ codes "dev" ∷ [];
  token = codes "t0";
}

signed_in_claims : extract_claims signed_in ≡ some ann
unfolding extract_claims trim_space trim_prefix split ◌==◌
signed_in_claims = refl

refused :
    (extract_claims (headers (codes "Bearer ")) ≡ none)
    × (extract_claims (headers (codes "Basic x")) ≡ none)
    × (middleware true (headers []) ≡ unauthorized)
    × (middleware false (headers []) ≡ go_on none)
unfolding extract_claims trim_space trim_prefix split middleware ◌==◌
refused = (refl, refl, refl, refl)

extract_claims_iff_example : (extract_claims signed_in ≡ some ann) ↔ (
    (r : Text) × (trim_space (codes " Bearer t0 ") ≡ bearer ++ r)
    × (ann ≡ claims_with signed_in (trim_space r)))
extract_claims_iff_example = extract_claims_iff signed_in ann
