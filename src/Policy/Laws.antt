-- ===== src/Policy/Laws.antt =====
-- What the policy engine of internal/policy/authorizer.go allows.
use mathlib.Core.List.{Memᴰ}
use porcelain.Prelude.{
  Bool, true, false, List, [], ◌∷◌, ◌++◌, Result, ok, err, ◌≡◌, ◌≢◌, refl, ◌⊎◌, inl, inr, ◌↔◌,
  arith, Bool-cases,
}
use porcelain.Text.{Text, codes, ◌==◌, trim_space, has_prefix}
use porcelain.Text.Affix.{eq_iff, has_prefix_sound, has_prefix-append}
use porcelain.Policy.{
  Input, Decision, PolicyError, action_required, OpaStyleAuthorizer, new_opa_style_authorizer,
  normal, any_group, has_group, authorize,
}

-- Membership, up to letter case and surrounding space. A blank name has no members.
abbrev pub InGroup : List Text → Text → Type 0
InGroup groups target =
    (normal target ≢ []) × ((g : Text) × Memᴰ g groups × (normal g ≡ normal target))

any_group_sound :
    (groups : List Text) (name : Text)
    → any_group groups name ≡ true
    → (g : Text) × Memᴰ g groups × (normal g ≡ name)
unfolding any_group
any_group_sound [] name h = cc
any_group_sound (g ∷ groups) name h = elim (Bool-cases (normal g == name)) [
  | inl e ↦ (g, Memᴰ.head refl, (eq_iff _ _).0 e)
  | inr e ↦ let (g', m, same) = any_group_sound groups name (rw e at h) in (g', Memᴰ.tail m, same)
]

any_group_complete :
    (groups : List Text) (name : Text) {g : Text}
    → Memᴰ g groups
    → normal g ≡ name
    → any_group groups name ≡ true
unfolding any_group
any_group_complete [] name m h = elim m [ ]
any_group_complete (x ∷ groups) name (Memᴰ.head e) h = ground (arith, eq_iff (normal x) name)
any_group_complete (x ∷ groups) name (Memᴰ.tail m) h =
    ground (arith, any_group_complete groups name m h)

pub has_group_iff :
    (groups : List Text) (target : Text) → (has_group groups target ≡ true) ↔ InGroup groups target
unfolding has_group
has_group_iff groups target = elim (Bool-cases (normal target == [])) [
  | inl e ↦ rw e (λ h. cc, λ m. absurd (m.0 ((eq_iff _ _).0 e)))
  | inr e ↦ rw e (
    λ h. (λ blank. cc ((eq_iff _ _).1 blank), any_group_sound groups (normal target) h),
    λ (named, (g, m, same)). any_group_complete groups (normal target) m same,
  )
]

-- The normalised action is the prefix and something more.
abbrev pub ActsUnder : Input → Text → Type 0
ActsUnder input prefix = (r : Text) × (normal input.action ≡ prefix ++ r)

has_prefix_iff :
    (input : Input) (prefix : Text)
    → (has_prefix (normal input.action) prefix ≡ true) ↔ ActsUnder input prefix
has_prefix_iff input prefix =
    (has_prefix_sound (normal input.action) prefix, λ (r, e). rw e (has_prefix-append prefix r))

-- The policy, as the documentation states it.
pub record Permits (a : OpaStyleAuthorizer) (input : Input) : Type 0 where
  pub named : normal input.action ≢ []
  pub known : (a.auth_enabled ≡ false) ⊎ (trim_space input.subject ≢ [])
  pub granted :
      ActsUnder input (codes "read.")
      ⊎ ActsUnder input (codes "write.")
        × (InGroup input.groups a.admin_group ⊎ InGroup input.groups a.operator_group)

-- The request is let through: a decision was made, and it is to allow.
abbrev pub IsAllowed : Result PolicyError Decision → Type 0
IsAllowed (ok d) = d.allowed ≡ true
IsAllowed (err e) = ⊥

module _ (a : OpaStyleAuthorizer) (input : Input) where
  authorize_granted :
      IsAllowed (authorize a input)
      → (has_prefix (normal input.action) (codes "read.") ≡ true)
        ⊎ (has_prefix (normal input.action) (codes "write.") ≡ true)
          × ((has_group input.groups a.admin_group ≡ true)
              ⊎ (has_group input.groups a.operator_group ≡ true))
  unfolding authorize
  authorize_granted h = ground arith

  authorize_sound : IsAllowed (authorize a input) → Permits a input
  authorize_sound h = record {
    named = unfold authorize in ground (arith, eq_iff (normal input.action) []);
    known = unfold authorize in ground (arith, eq_iff (trim_space input.subject) []);
    granted = elim (authorize_granted h) [
      | inl r ↦ inl ((has_prefix_iff input _).0 r)
      | inr (w, inl g) ↦ inr ((has_prefix_iff input _).0 w, inl ((has_group_iff _ _).0 g))
      | inr (w, inr g) ↦ inr ((has_prefix_iff input _).0 w, inr ((has_group_iff _ _).0 g))
    ];
  }

  authorize_complete_of_tests :
      normal input.action ≢ []
      → (a.auth_enabled ≡ false) ⊎ (trim_space input.subject ≢ [])
      → (has_prefix (normal input.action) (codes "read.") ≡ true)
        ⊎ (has_prefix (normal input.action) (codes "write.") ≡ true)
          × ((has_group input.groups a.admin_group ≡ true)
              ⊎ (has_group input.groups a.operator_group ≡ true))
      → IsAllowed (authorize a input)
  unfolding authorize
  authorize_complete_of_tests named known granted =
      ground (arith, eq_iff (normal input.action) [], eq_iff (trim_space input.subject) [])

  authorize_complete : Permits a input → IsAllowed (authorize a input)
  authorize_complete p = authorize_complete_of_tests p.named p.known (elim p.granted [
    | inl r ↦ inl ((has_prefix_iff input _).1 r)
    | inr (w, inl g) ↦ inr ((has_prefix_iff input _).1 w, inl ((has_group_iff _ _).1 g))
    | inr (w, inr g) ↦ inr ((has_prefix_iff input _).1 w, inr ((has_group_iff _ _).1 g))
  ])

  -- A request is let through exactly when its action is not blank, its subject is known if
  -- authentication is on, and its action reads, or writes on behalf of a member of the
  -- administrators' or the operators' group.
  pub authorize-IsAllowed_iff : IsAllowed (authorize a input) ↔ Permits a input
  authorize-IsAllowed_iff = (authorize_sound, authorize_complete)

  -- The policy fails, rather than decides, exactly on a blank action.
  pub authorize-eq-err_iff : (authorize a input ≡ err action_required) ↔ (normal input.action ≡ [])
  unfolding authorize
  authorize-eq-err_iff = ground (arith, eq_iff (normal input.action) [])

any_group_mono :
    (xs ys : List Text) (name : Text) → any_group xs name ≡ true → any_group (ys ++ xs) name ≡ true
unfolding any_group
any_group_mono xs [] name h = h
any_group_mono xs (y ∷ ys) name h = ground (arith, any_group_mono xs ys name h)

has_group_mono :
    (xs ys : List Text) (target : Text)
    → has_group xs target ≡ true
    → has_group (ys ++ xs) target ≡ true
unfolding has_group
has_group_mono xs ys target h = ground (arith, any_group_mono xs ys (normal target))

-- More groups never take a permission away.
pub authorize_mono :
    (a : OpaStyleAuthorizer) (input : Input) (more : List Text)
    → IsAllowed (authorize a input)
    → IsAllowed (authorize a (record input { groups = more ++ input.groups }))
unfolding authorize
authorize_mono a input more h = ground (
  arith,
  has_group_mono input.groups more a.admin_group,
  has_group_mono input.groups more a.operator_group,
)

-- The policy engine that the router builds has an administrators' group that is not blank,
-- whatever the configuration says.
pub new_opa_style_authorizer_admin :
    (admin_group : Text) (auth_enabled : Bool)
    → trim_space (new_opa_style_authorizer admin_group auth_enabled).admin_group ≢ []
unfolding new_opa_style_authorizer
new_opa_style_authorizer_admin admin_group auth_enabled =
    elim (Bool-cases (trim_space admin_group == [])) [
      | inl e ↦ rw e (unfold trim_space in (cc))
      | inr e ↦ rw e (λ blank. cc ((eq_iff _ _).1 blank))
    ]
