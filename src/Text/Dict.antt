-- ===== src/Text/Dict.antt =====
-- Go's maps with text keys: a list of entries in which the first entry of a key counts.
use porcelain.Prelude.{
  List, [], ◌∷◌, Option, none, some, if◌then◌else◌, ◌≡◌, ◌≢◌, refl, arith, inl, inr, Bool-cases,
}
use porcelain.Text.{Text, ◌==◌}
use porcelain.Text.Affix.{eq_iff}

abbrev pub Dict : Type 0 → Type 0
Dict V = List (Text × V)

module _ {V : Type 0} where
  unfoldable pub find : Text → Dict V → Option V
  find k [] = none
  find k ((j, v) ∷ d) = if j == k then some v else find k d

  -- `delete`.
  unfoldable pub erase : Text → Dict V → Dict V
  erase k [] = []
  erase k ((j, v) ∷ d) = let rest = erase k d in if j == k then rest else (j, v) ∷ rest

  -- `d[k] = v`.
  unfoldable pub assign : Text → V → Dict V → Dict V
  unfolding erase
  assign k v d = (k, v) ∷ erase k d

  pub find-erase : (k : Text) (d : Dict V) → find k (erase k d) ≡ none
  unfolding find erase
  find-erase k [] = refl
  find-erase k ((j, v) ∷ d) = elim (Bool-cases (j == k)) [
    | inl e ↦ rw e (find-erase k d)
    | inr e ↦ rw (e, e) (find-erase k d)
  ]

  pub find-erase_other : (k l : Text) (d : Dict V) → k ≢ l → find l (erase k d) ≡ find l d
  unfolding find erase
  find-erase_other k l [] other = refl
  find-erase_other k l ((j, v) ∷ d) other =
      let ih = find-erase_other k l d other in ground (arith, eq_iff j k, eq_iff j l, ih)

  pub find-assign : (k : Text) (v : V) (d : Dict V) → find k (assign k v d) ≡ some v
  unfolding find assign
  find-assign k v d = rw ((eq_iff k k).1 refl) refl

  pub find-assign_other :
      (k l : Text) (v : V) (d : Dict V) → k ≢ l → find l (assign k v d) ≡ find l d
  unfolding find assign
  find-assign_other k l v d other =
      let rest = find-erase_other k l d other in ground (arith, eq_iff k l, rest)
