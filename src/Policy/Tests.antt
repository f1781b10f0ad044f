-- ===== src/Policy/Tests.antt =====
-- Runs of the policy, and its theorems at concrete requests.
use porcelain.Prelude.{true, false, List, [], ◌∷◌, err, ◌≡◌, ◌≢◌, refl, ◌⊎◌, ◌↔◌}
use porcelain.Text.{Text, codes, ◌==◌, trim_space, to_lower, has_prefix}
use porcelain.Policy.{
  Input, OpaStyleAuthorizer, action_required, new_opa_style_authorizer, normal, has_group,
  authorize, decide,
}
use porcelain.Policy.Laws.{InGroup, Permits, IsAllowed, authorize-IsAllowed_iff}
use porcelain.Policy.Write.{authorize_write_iff}

abbrev admins : OpaStyleAuthorizer
admins = record {
  admin_group = codes "porcelain-admins";
  operator_group = codes "porcelain-operators";
  auth_enabled = true;
}

abbrev asking : Text → Text → List Text → Input
asking subject action groups = record {
  subject = subject;
  groups = groups;
  action = action;
  resource = [];
  peer_cn = [];
  peer_fp = [];
  auth_token = [];
}

-- An operator starts a unit; the group is written in another case.
abbrev starting : Input
starting =
    asking (codes "ann") (codes "write.systemd.unit.start") (codes " Porcelain-Operators" ∷ [])

runs :
    (authorize admins starting ≡ decide true "group allowed")
    × (authorize admins (asking (codes "ann") (codes "write.x") [])
        ≡ decide false "missing required group")
    × (authorize admins (asking [] (codes "read.x") [])
        ≡ decide false "missing authenticated subject")
    × (authorize admins (asking (codes "ann") (codes " READ.x") []) ≡ decide true "read access")
    × (authorize admins (asking (codes "ann") (codes "other") [])
        ≡ decide false "unsupported policy action")
    × (authorize admins (asking (codes "ann") (codes "  ") []) ≡ err action_required)
unfolding authorize normal has_group trim_space to_lower has_prefix ◌==◌
runs = (refl, refl, refl, refl, refl, refl)

default_group : new_opa_style_authorizer (codes " ") true ≡ admins
unfolding new_opa_style_authorizer trim_space ◌==◌
default_group = refl

starting-IsAllowed : IsAllowed (authorize admins starting)
unfolding authorize normal has_group trim_space to_lower has_prefix ◌==◌
starting-IsAllowed = refl

authorize-IsAllowed_iff_example : IsAllowed (authorize admins starting) ↔ Permits admins starting
authorize-IsAllowed_iff_example = authorize-IsAllowed_iff admins starting

authorize_write_iff_example : IsAllowed (authorize admins starting) ↔ (
    ((true ≡ false) ⊎ (trim_space (codes "ann") ≢ []))
    × (InGroup starting.groups admins.admin_group ⊎ InGroup starting.groups admins.operator_group))
authorize_write_iff_example = authorize_write_iff admins starting (codes "systemd.unit.start") refl
