-- ===== src/Policy/Write.antt =====
-- What the policy of internal/policy/authorizer.go says of the requests of internal/server: their
-- actions are "write." and a text that comes in part from the request.
use porcelain.Prelude.{false, [], ◌∷◌, ◌++◌, ◌≡◌, ◌≢◌, refl, arith, ◌⊎◌, inl, inr, ◌↔◌, sym, ◌∙◌}
use porcelain.Text.{Text, codes, trim_space, to_lower, trim_right, trim_end, is_space}
use porcelain.Policy.{Input, OpaStyleAuthorizer, normal, authorize}
use porcelain.Policy.Laws.{InGroup, IsAllowed, authorize-IsAllowed_iff}

-- The prefix with something trimmed behind it: its last character is no space.
keep_prefix :
    (s : Text)
    → to_lower (
        trim_end is_space b'w' (
          trim_end is_space b'r' (
            trim_end is_space b'i'
              (trim_end is_space b't' (trim_end is_space b'e' (trim_end is_space b'.' s))))))
      ≡ codes "write." ++ to_lower s
unfolding trim_end is_space to_lower
keep_prefix [] = refl
keep_prefix (c ∷ s) = refl

-- Neither trimming nor case mapping takes the prefix away.
normal-write :
    (s : Text) → normal (codes "write." ++ s) ≡ codes "write." ++ to_lower (trim_right is_space s)
unfolding normal trim_space
normal-write s = keep_prefix (trim_right is_space s)

read_is_no_write : (s r : Text) → codes "write." ++ s ≢ codes "read." ++ r
read_is_no_write s r e = ground arith

-- Whatever follows "write.", the action is a write to the policy: it is allowed exactly if the
-- subject is known where authentication is on, and is in one of the two groups.
pub authorize_write_iff :
    (a : OpaStyleAuthorizer) (input : Input) (action : Text)
    → input.action ≡ codes "write." ++ action
    → IsAllowed (authorize a input) ↔ (
        ((a.auth_enabled ≡ false) ⊎ (trim_space input.subject ≢ []))
        × (InGroup input.groups a.admin_group ⊎ InGroup input.groups a.operator_group))
authorize_write_iff a input action e =
    let shown : normal input.action ≡ codes "write." ++ to_lower (trim_right is_space action) =
      rw e (normal-write action) in
    (
      λ h.
          let p = (authorize-IsAllowed_iff a input).0 h in
          (
            p.known,
            elim p.granted [
              | inl (r, reads) ↦ absurd (read_is_no_write _ r (sym shown ∙ reads))
              | inr (w, member) ↦ member
            ],
          ),
      λ (known, member). (authorize-IsAllowed_iff a input).1 (record {
        named = λ blank. cc (shown, blank);
        known = known;
        granted = inr ((to_lower (trim_right is_space action), shown), member);
      }),
    )
