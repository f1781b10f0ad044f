-- ===== src/Server/UserMenu/Laws.antt =====
-- internal/server/router.go: when there is no user menu, and whose name it shows.
use porcelain.Prelude.{
  true, [], ◌∷◌, Option, none, some, ◌≡◌, ◌⊎◌, ◌↔◌, inl, inr, refl, Option-cases, Bool-cases, sym,
  subst, some_inj, ◌≢◌, arith, nil_of_is_nil,
}
use porcelain.Text.{Text, codes, trim_space}
use porcelain.Text.Affix.{eq_iff}
use porcelain.Auth.{Claims}
use porcelain.Server.{PeerIdentity}
use porcelain.Server.Badges.{initials_for}
use porcelain.Server.Badges.Laws.{initials_for-eq-none_iff}
use porcelain.Server.UserMenu.{
  UserInfo, with_name, with_peer, is_named, with_claims, build_user_info, first_non_empty,
}

-- The slice of an empty name panics, and the name begins with "@" once it is trimmed.
abbrev pub IsBad : Option Text → Text → Type 0
IsBad empty_slice name = (empty_slice ≡ none) × ((r : Text) × (trim_space name ≡ b'@' ∷ r))

-- The claims name a subject.
abbrev pub NamesSubject : Claims → Type 0
NamesSubject c = (c.subject ≢ []) × (c.subject ≢ codes "unknown")

-- The certificate's name, or else the subject of the claims if they name one.
abbrev pub ShowsBad : Option Text → Option PeerIdentity → Option Claims → Type 0
ShowsBad empty_slice peer claims =
    ((identity : PeerIdentity) × (peer ≡ some identity) × IsBad empty_slice identity.common_name)
    ⊎ ((c : Claims) × (claims ≡ some c) × NamesSubject c × IsBad empty_slice c.subject)

is_named_iff : (c : Claims) → (is_named c ≡ true) ↔ NamesSubject c
unfolding is_named
is_named_iff c =
    ground (arith, nil_of_is_nil c.subject, eq_iff c.subject [], eq_iff c.subject (codes "unknown"))

module _ (empty_slice : Option Text) where
  with_name-eq-none_iff :
      (name : Text) (info : UserInfo)
      → (with_name empty_slice name info ≡ none) ↔ IsBad empty_slice name
  unfolding with_name
  with_name-eq-none_iff name info = elim (Option-cases (initials_for empty_slice name)) [
    | inl e ↦ (λ h. (initials_for-eq-none_iff empty_slice name).0 e, λ h. rw (with_name, e) refl)
    | inr (i, e) ↦ (
      λ h. absurd (cc (rw (with_name, e) at h)),
      λ h. absurd (cc (e, (initials_for-eq-none_iff empty_slice name).1 h)),
    )
  ]

  with_peer-eq-none_iff :
      (peer : Option PeerIdentity) (info : UserInfo)
      → (with_peer empty_slice peer info ≡ none) ↔ (
          (identity : PeerIdentity) × (peer ≡ some identity)
          × IsBad empty_slice identity.common_name)
  unfolding with_peer
  with_peer-eq-none_iff none info = (λ h. absurd (cc h), λ (i, e, h). absurd (cc e))
  with_peer-eq-none_iff (some identity) info =
      let law =
        with_name-eq-none_iff identity.common_name
          (record info { email = first_non_empty identity.email_addresses }) in
      (
        λ h. (identity, refl, law.0 h),
        λ (i, e, h). law.1 (subst (λ p. IsBad empty_slice p.common_name) (sym (some_inj e)) h),
      )

  with_claims-eq-none_iff :
      (claims : Option Claims) (info : UserInfo)
      → (with_claims empty_slice claims info ≡ none)
        ↔ ((c : Claims) × (claims ≡ some c) × NamesSubject c × IsBad empty_slice c.subject)
  unfolding with_claims
  with_claims-eq-none_iff none info = (λ h. absurd (cc h), λ (c, e, _, h). absurd (cc e))
  with_claims-eq-none_iff (some c) info = elim (Bool-cases (is_named c)) [
    | inl e ↦
        let law = with_name-eq-none_iff c.subject (record info { groups = c.groups }) in
        (
          λ h. (c, refl, (is_named_iff c).0 e, law.0 (rw (with_claims, e) at h)),
          λ (d, f, _, h).
              rw (with_claims, e)
                (law.1 (subst (λ d. IsBad empty_slice d.subject) (sym (some_inj f)) h)),
        )
    | inr e ↦ (
      λ h. absurd (cc (rw (with_claims, e) at h)),
      λ (d, f, n, h). absurd (cc ((is_named_iff c).1 (subst NamesSubject (sym (some_inj f)) n), e)),
    )
  ]

  -- There is no user menu exactly if Go's slice of an empty name panics, and the name of the client's
  -- certificate begins with "@" once it is trimmed, even if claims take its place, or the subject that
  -- claims name does.
  pub build_user_info-eq-none_iff :
      (peer : Option PeerIdentity) (claims : Option Claims)
      → (build_user_info empty_slice peer claims ≡ none) ↔ ShowsBad empty_slice peer claims
  unfolding build_user_info
  build_user_info-eq-none_iff peer claims =
      let anonymous : UserInfo = record {
        name = codes "anonymous";
        initials = codes "?";
        email = [];
        groups = [];
      } in
      let peer_law = with_peer-eq-none_iff peer anonymous in
      elim (Option-cases (with_peer empty_slice peer anonymous)) [
        | inl e ↦ (λ h. inl (peer_law.0 e), λ h. rw (build_user_info, e) refl)
        | inr (info, e) ↦
            let claims_law = with_claims-eq-none_iff claims info in
            (
              λ h. inr (claims_law.0 (rw (build_user_info, e) at h)),
              λ h.
                  rw (build_user_info, e)
                    (elim h [
                      | inl left ↦ absurd (cc (e, peer_law.1 left))
                      | inr right ↦ claims_law.1 right
                    ]),
            )
      ]
