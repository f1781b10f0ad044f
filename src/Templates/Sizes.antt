-- ===== src/Templates/Sizes.antt =====
-- internal/templates/funcs.go: the loop of `humanizeBytes` ends, and its index is in range.
use porcelain.Prelude.{
  ℕ, ◌+◌, ◌*◌, ◌/◌, ◌^◌, ◌≤◌, ◌<◌, some, ◌≡◌, ◌⊎◌, inl, inr, refl, arith, ltb, true, false,
  Bool-cases,
}
use porcelain.Templates.{scale}

lt_cases : (a b : ℕ) → ((a < b) × (ltb a b ≡ true)) ⊎ ((b ≤ a) × (ltb a b ≡ false))
lt_cases a b = elim (Bool-cases (ltb a b)) [
  | inl e ↦ inl (ground (arith, e), e)
  | inr e ↦ inr (ground (arith, e), e)
]

-- For a count of bytes that is at least 1024 and fits an `int64`, the loop ends within six rounds;
-- its divisor is the power of 1024 that belongs to its exponent, the exponent is one of the six
-- letters, and the count is at least one and less than 1024 times the divisor.
pub scale_ends :
    (b : ℕ)
    → 1024 ≤ b
    → b < 2 ^ 63
    → (div : ℕ) × (exp : ℕ) × (scale 6 (b / 1024) 1024 0 ≡ some (div, exp))
      × (exp ≤ 5)
      × (div ≡ 1024 ^ (exp + 1))
      × (div ≤ b)
      × (b < div * 1024)
unfolding scale
scale_ends b h k = elim (lt_cases (b / 1024) 1024) [
  | inl (h1, e1) ↦ (1024, 0, rw (e1) refl, omega arith, refl, omega (arith, h1), omega (arith, h1))
  | inr (h1, e1) ↦ elim (lt_cases (b / 1024 / 1024) 1024) [
    | inl (h2, e2) ↦ (
      1048576,
      1,
      rw (e1, e2) refl,
      omega arith,
      refl,
      omega (arith, h1, h2),
      omega (arith, h1, h2),
    )
    | inr (h2, e2) ↦ elim (lt_cases (b / 1024 / 1024 / 1024) 1024) [
      | inl (h3, e3) ↦ (
        1073741824,
        2,
        rw (e1, e2, e3) refl,
        omega arith,
        refl,
        omega (arith, h1, h2, h3),
        omega (arith, h1, h2, h3),
      )
      | inr (h3, e3) ↦ elim (lt_cases (b / 1024 / 1024 / 1024 / 1024) 1024) [
        | inl (h4, e4) ↦ (
          1099511627776,
          3,
          rw (e1, e2, e3, e4) refl,
          omega arith,
          refl,
          omega (arith, h1, h2, h3, h4),
          omega (arith, h1, h2, h3, h4),
        )
        | inr (h4, e4) ↦ elim (lt_cases (b / 1024 / 1024 / 1024 / 1024 / 1024) 1024) [
          | inl (h5, e5) ↦ (
            1125899906842624,
            4,
            rw (e1, e2, e3, e4, e5) refl,
            omega arith,
            refl,
            omega (arith, h1, h2, h3, h4, h5),
            omega (arith, h1, h2, h3, h4, h5),
          )
          | inr (h5, e5) ↦ elim (lt_cases (b / 1024 / 1024 / 1024 / 1024 / 1024 / 1024) 1024) [
            | inl (h6, e6) ↦ (
              1152921504606846976,
              5,
              rw (e1, e2, e3, e4, e5, e6) refl,
              omega arith,
              refl,
              omega (arith, h1, h2, h3, h4, h5, h6),
              omega (arith, h1, h2, h3, h4, h5, h6),
            )
            | inr (h6, _) ↦ absurd (omega (arith, h1, h2, h3, h4, h5, h6))
          ]
        ]
      ]
    ]
  ]
]
