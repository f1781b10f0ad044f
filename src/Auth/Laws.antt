-- ===== src/Auth/Laws.antt =====
-- When the middleware of internal/auth/dex.go lets a request through, and with what claims.
use porcelain.Prelude.{
  ℕ, Bool, true, false, List, [], ◌∷◌, ◌++◌, none, some, if◌then◌else◌, ◌≡◌, ◌≢◌, refl, arith, All,
  Bool-cases, inl, inr, ◌↔◌, ap, sym, ◌∙◌, length, ◌≤◌, suc,
}
use porcelain.Text.{
  Text, codes, ◌==◌, trim_space, split, has_prefix, trim_left, trim_right, trim_end, trim_func,
  is_space,
}
use porcelain.Text.Affix.{eq_iff, eq_refl, has_prefix_sound, trim_prefix_absent, trim_prefix-append}
use porcelain.Text.Trim.{trim_space_idem}
use porcelain.Auth.{
  Claims, Headers, trimmed_parts, parse_groups, bearer, extract_claims, go_on, unauthorized,
  middleware,
}

-- A text that is trimmed and is not blank.
abbrev pub IsWord : Text → Type 0
IsWord s = (s ≢ []) × (trim_space s ≡ s)

pub trimmed_parts-IsWord : (parts : List Text) → All IsWord (trimmed_parts parts)
unfolding trimmed_parts
trimmed_parts-IsWord [] = tt
trimmed_parts-IsWord (part ∷ parts) = elim (Bool-cases (trim_space part == [])) [
  | inl e ↦ rw e (trimmed_parts-IsWord parts)
  | inr e ↦
      rw e
        (((λ blank. cc ((eq_iff _ _).1 blank)), trim_space_idem part), trimmed_parts-IsWord parts)
]

trim_right_all :
    (p : ℕ → Bool) (s r : Text) → trim_right p r ≡ [] → trim_right p (s ++ r) ≡ trim_right p s
unfolding trim_right
trim_right_all p [] r e = e
trim_right_all p (c ∷ s) r e = rw (trim_right_all p s r e)

trim_left_blank :
    (p : ℕ → Bool) (s : Text) → trim_right p (trim_left p s) ≡ [] → trim_right p s ≡ []
unfolding trim_left trim_right
trim_left_blank p [] e = refl
trim_left_blank p (c ∷ s) e = elim (Bool-cases (p c)) [
  | inl h ↦ rw (trim_left_blank p s (rw h at e)) (unfold trim_end in rw h)
  | inr h ↦ rw h at e
]

length-trim_end : (p : ℕ → Bool) (c : ℕ) (s : Text) → length (trim_end p c s) ≤ suc (length s)
unfolding trim_end
length-trim_end p c [] = ground arith
length-trim_end p c (d ∷ s) = omega arith

length-trim_right : (p : ℕ → Bool) (s : Text) → length (trim_right p s) ≤ length s
unfolding trim_right
length-trim_right p [] = omega arith
length-trim_right p (c ∷ s) =
    omega (arith, length-trim_end p c (trim_right p s), length-trim_right p s)

length-trim_left : (p : ℕ → Bool) (s : Text) → length (trim_left p s) ≤ length s
unfolding trim_left
length-trim_left p [] = omega arith
length-trim_left p (c ∷ s) = ground (arith, length-trim_left p s)

pub length-trim_space : (s : Text) → length (trim_space s) ≤ length s
unfolding trim_space trim_func
length-trim_space s =
    omega (arith, length-trim_right is_space (trim_left is_space s), length-trim_left is_space s)

-- A trimmed text that begins with "Bearer " has more behind it than space.
bearer_rest : (r : Text) → trim_space (bearer ++ r) ≡ bearer ++ r → trim_space r ≢ []
unfolding trim_space trim_func is_space trim_left trim_right trim_end
bearer_rest r whole blank =
    let none_left : trim_right is_space r ≡ [] = trim_left_blank is_space r blank in
    let short : trim_right is_space (bearer ++ r) ≡ codes "Bearer" =
      trim_right_all is_space bearer r none_left in
    absurd (omega (arith, ap length (sym short ∙ whole)))

parse_groups-IsWord : (header : Text) → All IsWord (parse_groups header)
unfolding parse_groups
parse_groups-IsWord header = elim (Bool-cases (trim_space header == [])) [
  | inl e ↦ rw e tt
  | inr e ↦ rw e (trimmed_parts-IsWord (split (trim_space header) b','))
]

module _ (h : Headers) where
  -- The header's text, trimmed, begins with "Bearer ".
  abbrev pub HasBearer : Type 0
  HasBearer = (r : Text) × (trim_space h.authorization ≡ bearer ++ r)

  extract_claims_absent :
      has_prefix (trim_space h.authorization) bearer ≡ false → extract_claims h ≡ none
  unfolding extract_claims
  extract_claims_absent e = ground (
    arith,
    trim_prefix_absent (trim_space h.authorization) bearer e,
    trim_space_idem h.authorization,
    eq_refl (trim_space h.authorization),
  )

  -- The claims that a request with this token has.
  abbrev pub claims_with : Text → Claims
  claims_with token = record {
    subject =
        if trim_space h.porcelain_subject == []
        then codes "unknown"
        else trim_space h.porcelain_subject;
    groups = parse_groups h.porcelain_groups;
    token = token;
  }

  extract_claims_present :
      (r : Text)
      → trim_space h.authorization ≡ bearer ++ r
      → extract_claims h ≡ some (claims_with (trim_space r))
  unfolding extract_claims
  extract_claims_present r e =
      let whole : trim_space (bearer ++ r) ≡ bearer ++ r =
        rw e at (trim_space_idem h.authorization) in
      let some_token : (trim_space r == []) ≡ false =
        ground (arith, eq_iff (trim_space r) [], bearer_rest r whole) in
      let shorter : (trim_space r == bearer ++ r) ≡ false =
        elim (Bool-cases (trim_space r == bearer ++ r)) [
          | inl same ↦ absurd (
              omega (
                arith,
                ap length ((eq_iff (trim_space r) (bearer ++ r)).0 same),
                length-trim_space r,
              ))
          | inr other ↦ other
        ] in
      rw (e, trim_prefix-append bearer r, some_token, shorter) (unfold ◌==◌ in refl)

  subject_named : (token : Text) → (claims_with token).subject ≢ []
  subject_named token = elim (Bool-cases (trim_space h.porcelain_subject == [])) [
    | inl e ↦ rw e (cc)
    | inr e ↦ rw e (λ blank. cc ((eq_iff _ _).1 blank))
  ]

  -- A request has claims exactly if its trimmed `Authorization` header begins with "Bearer "; the
  -- token is the trimmed rest, the subject the trimmed header or "unknown".
  pub extract_claims_iff :
      (c : Claims)
      → (extract_claims h ≡ some c) ↔ (
          (r : Text) × (trim_space h.authorization ≡ bearer ++ r)
          × (c ≡ claims_with (trim_space r)))
  extract_claims_iff c = (
    λ e. elim (Bool-cases (has_prefix (trim_space h.authorization) bearer)) [
      | inl starts ↦
          let (r, whole) = has_prefix_sound (trim_space h.authorization) bearer starts in
          (r, whole, cc (e, extract_claims_present r whole))
      | inr other ↦ cc (e, extract_claims_absent other)
    ],
    λ (r, whole, same). rw same (extract_claims_present r whole),
  )

  -- Whatever the headers, the claims have a subject and a token that are not blank, and groups
  -- that are trimmed and not blank.
  pub extract_claims_words :
      (c : Claims)
      → extract_claims h ≡ some c
      → (c.subject ≢ []) × IsWord c.token × All IsWord c.groups
  extract_claims_words c e =
      let (r, whole, same) = (extract_claims_iff c).0 e in
      let trimmed : trim_space (bearer ++ r) ≡ bearer ++ r =
        rw whole at (trim_space_idem h.authorization) in
      rw same (
        subject_named (trim_space r),
        (bearer_rest r trimmed, trim_space_idem r),
        parse_groups-IsWord h.porcelain_groups,
      )

  pub middleware_with :
      (r : Text)
      → trim_space h.authorization ≡ bearer ++ r
      → middleware true h ≡ go_on (some (claims_with (trim_space r)))
  unfolding middleware
  middleware_with r whole = rw (extract_claims_present r whole)

  pub middleware_without : ¬ HasBearer → middleware true h ≡ unauthorized
  unfolding middleware
  middleware_without missing = elim (Bool-cases (has_prefix (trim_space h.authorization) bearer)) [
    | inl starts ↦ absurd (missing (has_prefix_sound (trim_space h.authorization) bearer starts))
    | inr other ↦ rw (extract_claims_absent other)
  ]
