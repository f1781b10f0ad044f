-- ===== src/Cloudflare/Laws.antt =====
-- internal/modules/cloudflare: names of tunnels are safe in paths and on command lines, and nothing
-- is started without the files that it needs.
use porcelain.Prelude.{
  ◌≢◌, List, ◌++◌, ok, ap, ℕ, Bool, true, false, [], ◌∷◌, is_nil, nil_of_is_nil, ◌≡◌, inl, inr,
  refl, sym, arith, All, Bool-cases, ◌⊎◌, ◌≤◌,
}
use porcelain.Text.{codes, Text, trim_space, trim_left, trim_end, trim_right, trim_func, is_space}
use porcelain.Text.Trim.{trim_func_idem}
use porcelain.Host.{Host, World, command, exec}
use porcelain.Cloudflare.{
  Module, container_name, checked, restart_failed, restart_tunnel_container, is_safe, goes_on,
  replace_runs, is_dash, sanitize_tunnel_name,
}

-- A text of letters, digits, underscores and dashes.
abbrev pub IsSafe : Text → Type 0
IsSafe s = All (λ c. is_safe c ≡ true) s

replace_runs-IsSafe : (s : Text) → IsSafe (replace_runs s)
unfolding replace_runs
replace_runs-IsSafe [] = tt
replace_runs-IsSafe (c ∷ s) =
    let rest = replace_runs-IsSafe s in
    elim (Bool-cases (is_safe c)) [
      | inl e ↦ rw e (e, rest)
      | inr e ↦
          rw e (elim (Bool-cases (goes_on s)) [ inl g ↦ rw g rest | inr g ↦ rw g (refl, rest) ])
    ]

-- A safe text is left as it is.
replace_runs_fixed : (s : Text) → IsSafe s → replace_runs s ≡ s
unfolding replace_runs
replace_runs_fixed [] h = refl
replace_runs_fixed (c ∷ s) (e, h) = rw (e, replace_runs_fixed s h) refl

-- Trimming keeps what holds of every character.
module _ (p : ℕ → Bool) where
  trim_left-IsSafe : (s : Text) → IsSafe s → IsSafe (trim_left p s)
  unfolding trim_left
  trim_left-IsSafe [] h = tt
  trim_left-IsSafe (c ∷ s) (e, h) = elim (Bool-cases (p c)) [
    | inl d ↦ rw d (trim_left-IsSafe s h)
    | inr d ↦ rw d (e, h)
  ]

  trim_right-IsSafe : (s : Text) → IsSafe s → IsSafe (trim_right p s)
  unfolding trim_right trim_end
  trim_right-IsSafe [] h = tt
  trim_right-IsSafe (c ∷ s) (e, h) = go (trim_right p s) (trim_right-IsSafe s h)
    where
      go : (t : Text) → IsSafe t → IsSafe (trim_end p c t)
      go [] k = elim (Bool-cases (p c)) [ inl d ↦ rw d tt | inr d ↦ rw d (e, tt) ]
      go (d ∷ t) k = (e, k)

  -- A text without such characters is left as it is.
  trim_right_fixed : (s : Text) → All (λ c. p c ≡ false) s → trim_right p s ≡ s
  unfolding trim_right trim_end
  trim_right_fixed [] h = refl
  trim_right_fixed (c ∷ []) (e, _) = rw e refl
  trim_right_fixed (c ∷ d ∷ s) (e, h) = rw (trim_right_fixed (d ∷ s) h) refl

-- No safe character is space.
not_space : (c : ℕ) → is_safe c ≡ true → is_space c ≡ false
unfolding is_space
not_space c h = ground (arith, h)

safe-NoSpace : (s : Text) → IsSafe s → All (λ c. is_space c ≡ false) s
safe-NoSpace [] h = tt
safe-NoSpace (c ∷ s) (e, h) = (not_space c e, safe-NoSpace s h)

trim_space_fixed : (s : Text) → IsSafe s → trim_space s ≡ s
unfolding trim_space trim_func trim_left
trim_space_fixed [] h = trim_right_fixed is_space [] tt
trim_space_fixed (c ∷ s) (e, h) =
    rw (not_space c e) (trim_right_fixed is_space (c ∷ s) (safe-NoSpace (c ∷ s) (e, h)))

trim_dash-IsSafe : (s : Text) → IsSafe s → IsSafe (trim_func is_dash s)
unfolding trim_func
trim_dash-IsSafe s h = trim_right-IsSafe is_dash _ (trim_left-IsSafe is_dash s h)

sanitize_tunnel_name-IsSafe : (raw : Text) → IsSafe (sanitize_tunnel_name raw)
unfolding sanitize_tunnel_name
sanitize_tunnel_name-IsSafe raw = elim (Bool-cases (is_nil (trim_space raw))) [
  | inl e ↦ rw e tt
  | inr e ↦
      rw e (trim_dash-IsSafe (replace_runs (trim_space raw)) (replace_runs-IsSafe (trim_space raw)))
]

sanitize_tunnel_name_fixed :
    (s : Text) → IsSafe s → trim_func is_dash s ≡ s → sanitize_tunnel_name s ≡ s
unfolding sanitize_tunnel_name
sanitize_tunnel_name_fixed s h e = elim (Bool-cases (is_nil s)) [
  | inl empty ↦ rw (sanitize_tunnel_name, trim_space_fixed s h, empty) (sym (nil_of_is_nil s empty))
  | inr full ↦ rw (sanitize_tunnel_name, trim_space_fixed s h, full, replace_runs_fixed s h) e
]

-- A letter, a digit, an underscore or a dash.
abbrev pub IsNameChar : ℕ → Type 0
IsNameChar c =
    ((b'a' ≤ c) × (c ≤ b'z'))
    ⊎ ((b'A' ≤ c) × (c ≤ b'Z'))
    ⊎ ((b'0' ≤ c) × (c ≤ b'9'))
    ⊎ (c ≡ b'_')
    ⊎ (c ≡ b'-')

safe-IsNameChar : (c : ℕ) → is_safe c ≡ true → IsNameChar c
safe-IsNameChar c h = ground (arith, h)

All-IsNameChar : (s : Text) → IsSafe s → All IsNameChar s
All-IsNameChar [] h = tt
All-IsNameChar (c ∷ s) (e, h) = (safe-IsNameChar c e, All-IsNameChar s h)

-- Whatever the request names a tunnel, the sanitized name has only letters, digits, underscores and
-- dashes, and such a name is left alone by a second pass.
pub sanitize_tunnel_name_clean :
    (raw : Text)
    → All IsNameChar (sanitize_tunnel_name raw)
      × (sanitize_tunnel_name (sanitize_tunnel_name raw) ≡ sanitize_tunnel_name raw)
unfolding sanitize_tunnel_name
sanitize_tunnel_name_clean raw = (
  All-IsNameChar (sanitize_tunnel_name raw) (sanitize_tunnel_name-IsSafe raw),
  sanitize_tunnel_name_fixed (sanitize_tunnel_name raw) (sanitize_tunnel_name-IsSafe raw)
      (elim (Bool-cases (is_nil (trim_space raw))) [
        | inl e ↦ rw e refl
        | inr e ↦ rw e (trim_func_idem is_dash (replace_runs (trim_space raw)))
      ]),
)

restarted :
    (host : Host) (args : List Text) (w : World)
    → (checked restart_failed (exec host w (command (codes "podman") args))).1
      ≡ command (codes "podman") args ∷ w
unfolding checked exec
restarted host args w = ground arith

-- Whatever the request names a tunnel, a restart fails and runs nothing, or runs one command: `podman`
-- with the verb restart and a container whose name is `cloudflared-` with one or more letters, digits,
-- underscores and dashes behind it.
pub restart_tunnel_container_lem :
    (host : Host) (m : Module) (raw : Text) (w : World)
    → ((restart_tunnel_container host m raw w).1 ≡ w)
        × ((restart_tunnel_container host m raw w).0 ≢ ok tt)
      ⊎ ((name : Text) × (name ≢ [])
          × All IsNameChar name
          × ((restart_tunnel_container host m raw w).1
              ≡ command (codes "podman") (codes "restart" ∷ (codes "cloudflared-" ++ name) ∷ [])
                ∷ w))
unfolding restart_tunnel_container container_name checked exec
restart_tunnel_container_lem host m raw w =
    let name = sanitize_tunnel_name raw in
    elim (Bool-cases (is_nil name)) [
      | inl e ↦ inl (rw (restart_tunnel_container, e) (refl, λ f. cc f))
      | inr e ↦
          let ran = restarted host (codes "restart" ∷ container_name name ∷ []) w in
          inr (
            name,
            (λ f. cc (e, ap is_nil f)),
            (sanitize_tunnel_name_clean raw).0,
            rw (restart_tunnel_container, e) ran,
          )
    ]
