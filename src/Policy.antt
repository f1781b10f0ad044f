-- ===== src/Policy.antt =====
-- internal/policy/authorizer.go: the embedded policy engine that gates write requests.
pub mod Laws
pub mod Write
mod Tests
use porcelain.Prelude.{
  ℕ, String, Bool, true, false, ◌&&◌, ◌||◌, List, [], ◌∷◌, if◌then◌else◌, Result, ok, err,
}
use porcelain.Text.{Text, codes, ◌==◌, trim_space, to_lower, has_prefix}

pub record Input : Type 0 where
  pub subject : Text
  pub groups : List Text
  pub action : Text
  pub resource : Text
  pub peer_cn : Text
  pub peer_fp : Text
  pub auth_token : Text

pub record Decision : Type 0 where
  pub allowed : Bool
  pub reason : String

-- The one error of `Authorize`: "policy action is required".
pub data PolicyError : Type 0 where
  action_required : PolicyError

pub record OpaStyleAuthorizer : Type 0 where
  pub admin_group : Text
  pub operator_group : Text
  pub auth_enabled : Bool

-- `NewOPAStyleAuthorizer`.
unfoldable pub new_opa_style_authorizer : Text → Bool → OpaStyleAuthorizer
unfolding ◌==◌
new_opa_style_authorizer admin_group auth_enabled = record {
  admin_group = if trim_space admin_group == [] then codes "porcelain-admins" else admin_group;
  operator_group = codes "porcelain-operators";
  auth_enabled = auth_enabled;
}

-- Both sides of a comparison of group names.
unfoldable pub normal : Text → Text
normal s = to_lower (trim_space s)

-- The loop of `hasGroup`.
unfoldable pub any_group : List Text → Text → Bool
unfolding normal
any_group [] target = false
any_group (g ∷ groups) target = normal g == target || any_group groups target

unfoldable pub has_group : List Text → Text → Bool
unfolding any_group normal
has_group groups target =
    let name = normal target in if name == [] then false else any_group groups name

abbrev pub decide : Bool → String → Result PolicyError Decision
decide allowed reason = ok (record { allowed = allowed; reason = reason })

-- The decision about a normalised action; the guards of `Authorize` in their order.
unfoldable pub evaluate : OpaStyleAuthorizer → Input → Text → Result PolicyError Decision
evaluate a input action =
    if action == []
    then err action_required
    else if a.auth_enabled && trim_space input.subject == []
    then decide false "missing authenticated subject"
    else if has_prefix action (codes "read.")
    then decide true "read access"
    else if has_prefix action (codes "write.")
    then (if has_group input.groups a.admin_group || has_group input.groups a.operator_group
        then decide true "group allowed"
        else decide false "missing required group")
    else decide false "unsupported policy action"

unfoldable pub authorize : OpaStyleAuthorizer → Input → Result PolicyError Decision
unfolding evaluate
authorize a input = evaluate a input (normal input.action)
