-- ===== src/Server/HistoryRoutes/Tests.antt =====
-- The chart of the history at concrete points, over whole numbers.
use porcelain.Prelude.{ℕ, false, [], ◌∷◌, none, ◌≡◌, refl, ltb, eqb, ◌+◌, ◌*◌, if◌then◌else◌}
use porcelain.Text.{codes}
use porcelain.Text.Decimal.{decimal}
use porcelain.Host.{Floats}
use porcelain.Sensors.{HistoryPoint}
use porcelain.Server.HistoryRoutes.{Plot, path_data, lowest, highest}

abbrev whole : Floats
whole = record {
  Float = ℕ;
  zero_float = 0;
  is_positive = λ n. if eqb n 0 then false else ltb 0 n;
  at_least = λ a b. ltb b (1 + a);
  parse_float = λ s. none;
  fixed_two = decimal;
  fixed_zero = decimal;
}

-- Only sums and products are real: enough to see the order of the path.
abbrev whole_plot : Plot ℕ
whole_plot = record {
  of_nat = λ n. n;
  add = λ a b. a + b;
  sub = λ a b. a;
  mul = λ a b. a * b;
  div = λ a b. a;
  less = ltb;
  same = eqb;
}

abbrev point : ℕ → HistoryPoint ℕ
point v = record { at_time = 0; value = v }

draws_in_order :
    path_data whole whole_plot 0 1 1 0 (point 0 ∷ point 1 ∷ []) ≡ codes "M 12 172 L 652 172"
unfolding path_data decimal
draws_in_order = refl

finds_least : lowest whole whole_plot 5 (point 5 ∷ point 3 ∷ point 9 ∷ []) ≡ 3
unfolding lowest
finds_least = refl

finds_greatest : highest whole whole_plot 5 (point 5 ∷ point 3 ∷ point 9 ∷ []) ≡ 9
unfolding highest
finds_greatest = refl
