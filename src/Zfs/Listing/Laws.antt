-- ===== src/Zfs/Listing/Laws.antt =====
-- What the sizes and the tables of the ZFS page mean.
use porcelain.Prelude.{
  ℕ, true, false, ◌&&◌, [], ◌∷◌, ◌++◌, none, some, leb, ltb, length, ◌≡◌, ◌≢◌, refl, arith,
  length-append, Option-cases, inl, inr,
}
use porcelain.Text.{Text, codes, ◌==◌, trim_space, upper}
use porcelain.Host.{Floats}
use porcelain.Zfs.Listing.{Sizes, unit_power, unsnoc, scaled, size_of, parse_zfs_bytes}

unsnoc-append : (s : Text) (c : ℕ) → unsnoc (s ++ c ∷ []) ≡ some (s, c)
unfolding unsnoc
unsnoc-append [] c = refl
unsnoc-append (d ∷ s) c = rw (unsnoc, unsnoc-append s c) refl

snoc-ne-dash : (c : ℕ) (s : Text) (d : ℕ) → ((c ∷ s ++ d ∷ []) == codes "-") ≡ false
unfolding ◌==◌
snoc-ne-dash c [] d = ground arith
snoc-ne-dash c (e ∷ s) d = ground arith

snoc_long : (c : ℕ) (s : Text) (d : ℕ) → ltb (length (c ∷ s ++ d ∷ [])) 2 ≡ false
snoc_long c s d = let size = length-append s (d ∷ []) in ground arith

no_unit : (d : ℕ) → (leb b'0' d && leb d b'9') ≡ true → unit_power (upper d) ≡ 0
unfolding unit_power upper
no_unit d h = ground arith

module _ (fl : Floats) (sizes : Sizes fl) where
  size_of_bare :
      (number : Text) (d : ℕ)
      → (leb b'0' d && leb d b'9') ≡ true
      → size_of fl sizes number d
        ≡ elim (fl.parse_float number) [ none ↦ sizes.zero_size | some v ↦ sizes.to_int64 v ]
  unfolding size_of scaled
  size_of_bare number d digit =
      let ascii : ltb d 128 ≡ true = ground (arith, digit) in
      elim (Option-cases (fl.parse_float number)) [
        | inl e ↦ rw (size_of, ascii, e) refl
        | inr (v, e) ↦ rw (size_of, ascii, e, no_unit d digit) refl
      ]

  -- A trimmed size of two or more characters that ends in a digit, and so has no unit, is read
  -- without its last digit: the size is the number in front of it, or zero if that is none.
  pub parse_zfs_bytes_bare :
      (s : Text) (d : ℕ)
      → s ≢ []
      → trim_space (s ++ d ∷ []) ≡ s ++ d ∷ []
      → (leb b'0' d && leb d b'9') ≡ true
      → parse_zfs_bytes fl sizes (s ++ d ∷ [])
        ≡ elim (fl.parse_float s) [ none ↦ sizes.zero_size | some v ↦ sizes.to_int64 v ]
  unfolding parse_zfs_bytes ◌==◌
  parse_zfs_bytes_bare [] d some_digits trimmed digit = absurd (some_digits refl)
  parse_zfs_bytes_bare (c ∷ s) d some_digits trimmed digit =
      let whole = snoc-ne-dash c s d in
      let long = snoc_long c s d in
      rw (trimmed, whole, long, unsnoc-append (c ∷ s) d) (size_of_bare (c ∷ s) d digit)
