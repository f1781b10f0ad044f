-- ===== src/Secrets/SystemdCreds/Laws.antt =====
-- internal/secrets/systemd_creds.go: which paths a listing has.
use porcelain.Prelude.{
  ℕ, Bool, true, false, ◌||◌, ◌&&◌, not, List, [], ◌∷◌, ◌++◌, ok, ◌≡◌, refl, arith, Bool-cases, inl,
  inr, length, length-append, ap, sym, ◌∙◌,
}
use porcelain.Text.{Text, codes, ◌==◌, has_prefix, has_suffix, trim_suffix}
use porcelain.Text.Affix.{eq_iff, eq_sound}
use porcelain.Text.Sort.{listed, IsSorted, sort_texts-IsSorted, listed-sort_texts}
use porcelain.Secrets.SystemdCreds.{SystemdCredsStore, CredsHost, matches, list}

-- Whether there is a file of this name that is no directory.
unfoldable pub has_file : Text → List (Text × Bool) → Bool
has_file name [] = false
has_file name ((file, is_dir) ∷ files) = (file == name && not is_dir) || has_file name files

-- A text with something in front is another.
longer : (c : ℕ) (k p : Text) → (c ∷ k ++ p) == p ≡ false
longer c k p = elim (Bool-cases ((c ∷ k ++ p) == p)) [
  | inr e ↦ e
  | inl e ↦
      let same = ap length (eq_sound (c ∷ k ++ p) p e) in
      absurd (omega (arith, same, length-append k p))
]

trim_suffix_whole : (p : Text) → trim_suffix p p ≡ []
unfolding trim_suffix
trim_suffix_whole [] = refl
trim_suffix_whole (c ∷ p) = rw ((eq_iff (c ∷ p) (c ∷ p)).1 refl) refl

trim_suffix-append : (k p : Text) → trim_suffix (k ++ p) p ≡ k
unfolding trim_suffix
trim_suffix-append [] p = trim_suffix_whole p
trim_suffix-append (c ∷ k) p = rw (longer c k p) (ap (λ s. c ∷ s) (trim_suffix-append k p))

trim_suffix_sound : (s p : Text) → has_suffix s p ≡ true → trim_suffix s p ++ p ≡ s
unfolding trim_suffix has_suffix
trim_suffix_sound [] p h = sym (eq_sound [] p h)
trim_suffix_sound (c ∷ s) p h = elim (Bool-cases ((c ∷ s) == p)) [
  | inl e ↦ rw e (sym (eq_sound (c ∷ s) p e))
  | inr e ↦ rw e (ap (λ r. c ∷ r) (trim_suffix_sound s p (cc (rw e at h))))
]

has_suffix-append : (k p : Text) → has_suffix (k ++ p) p ≡ true
unfolding has_suffix
has_suffix-append [] [] = refl
has_suffix-append [] (c ∷ p) = rw ((eq_iff (c ∷ p) (c ∷ p)).1 refl) refl
has_suffix-append (c ∷ k) p = let ih = has_suffix-append k p in ground (arith, ih)

-- A file has the name of a path exactly if it has the suffix, with the path in front.
names_path : (k name p : Text) → (name == k ++ p) ≡ (has_suffix name p && trim_suffix name p == k)
names_path k name p = elim (Bool-cases (name == k ++ p)) [
  | inl e ↦
      let same = eq_sound name (k ++ p) e in
      rw
        (
          same,
          has_suffix-append k p,
          trim_suffix-append k p,
          (eq_iff k k).1 refl,
          (eq_iff (k ++ p) (k ++ p)).1 refl,
        )
        refl
  | inr e ↦ elim (Bool-cases (has_suffix name p && trim_suffix name p == k)) [
    | inr f ↦ cc
    | inl f ↦
        let suffix = trim_suffix_sound name p (ground (arith, f)) in
        let front = eq_sound (trim_suffix name p) k (ground (arith, f)) in
        absurd (cc (e, (eq_iff name (k ++ p)).1 (sym suffix ∙ ap (λ s. s ++ p) front)))
  ]
]

listed-matches :
    (k prefix : Text) (files : List (Text × Bool))
    → listed k (matches prefix files) ≡ (has_file (k ++ codes ".cred") files && has_prefix k prefix)
unfolding matches listed has_file
listed-matches k prefix [] = refl
listed-matches k prefix ((name, is_dir) ∷ files) =
    let ih = listed-matches k prefix files in
    let entry = names_path k name (codes ".cred") in
    let front : (trim_suffix name (codes ".cred") == k) ≡ true
        → has_prefix (trim_suffix name (codes ".cred")) prefix ≡ has_prefix k prefix =
      λ e. ap (λ t. has_prefix t prefix) (eq_sound (trim_suffix name (codes ".cred")) k e) in
    ground (arith, ih, entry, front)

-- If the directory can be walked, the listing is in order, and a path is in it exactly if it begins
-- with the prefix and there is a file of its name with `.cred` behind it.
pub list_lem :
    (host : CredsHost) (s : SystemdCredsStore) (prefix k : Text) (st : host.State)
    (files : List (Text × Bool))
    → host.walk s.storage_dir st ≡ ok files
    → (paths : List Text) × (list host s prefix st ≡ ok paths)
      × IsSorted paths
      × (listed k paths ≡ (has_file (k ++ codes ".cred") files && has_prefix k prefix))
unfolding list
list_lem host s prefix k st files h = (
  _,
  rw (list, h) refl,
  sort_texts-IsSorted (matches prefix files),
  listed-sort_texts k (matches prefix files) ∙ listed-matches k prefix files,
)
