-- ===== src/Text.antt =====
-- What the program uses of Go's `strings` package, over lists of code points. A Go string is a
-- sequence of bytes; texts here are those that are valid UTF-8, read by code point.
-- Case mapping is that of the ASCII letters: other letters are left as they are.
pub mod Trim
pub mod Affix
pub mod Split
pub mod Case
pub mod Decimal
pub mod Escape
pub mod Number
pub mod Dict
pub mod Sort
pub mod Path
use Prim.Native.Char.{code}
use porcelain.Prelude.{
  ltb, ℕ, String, Bool, true, false, ◌&&◌, ◌||◌, List, [], ◌∷◌, ◌++◌, Option, none, some, suc, zero,
  ◌+◌, ◌-◌, eqb, leb, if◌then◌else◌, length, drop, map,
}

abbrev pub Text : Type 0
Text = List ℕ

-- The code points of a literal.
abbrev pub codes : String → Text
codes String.[] = []
codes (String.◌∷◌ c s) = code c ∷ codes s

infix 50 ◌==◌
unfoldable pub ◌==◌ : Text → Text → Bool
[] == [] = true
[] == (_ ∷ _) = false
(_ ∷ _) == [] = false
(a ∷ s) == (b ∷ t) = eqb a b && s == t

-- `unicode.IsSpace`.
unfoldable pub is_space : ℕ → Bool
is_space c =
    (leb 9 c && leb c 13)
    || eqb c 32
    || eqb c 0x85
    || eqb c 0xA0
    || eqb c 0x1680
    || (leb 0x2000 c && leb c 0x200a)
    || eqb c 0x2028
    || eqb c 0x2029
    || eqb c 0x202f
    || eqb c 0x205f
    || eqb c 0x3000

-- `strings.TrimLeftFunc`, `TrimRightFunc` and `TrimFunc`.
module _ (p : ℕ → Bool) where
  unfoldable pub trim_left : Text → Text
  trim_left [] = []
  trim_left (c ∷ s) = if p c then trim_left s else c ∷ s

  -- One round of `trim_right`, from the end of the text.
  unfoldable pub trim_end : ℕ → Text → Text
  trim_end c [] = if p c then [] else c ∷ []
  trim_end c (d ∷ s) = c ∷ d ∷ s

  unfoldable pub trim_right : Text → Text
  unfolding trim_end
  trim_right [] = []
  trim_right (c ∷ s) = trim_end c (trim_right s)

  unfoldable pub trim_func : Text → Text
  unfolding trim_left trim_right
  trim_func s = trim_right (trim_left s)

unfoldable pub trim_space : Text → Text
unfolding trim_func is_space
trim_space s = trim_func is_space s

unfoldable pub lower : ℕ → ℕ
lower c = if leb b'A' c && leb c b'Z' then c + 32 else c

unfoldable pub upper : ℕ → ℕ
upper c = if leb b'a' c && leb c b'z' then c - 32 else c

unfoldable pub to_lower : Text → Text
unfolding lower
to_lower s = map lower s

unfoldable pub to_upper : Text → Text
unfolding upper
to_upper s = map upper s

-- `strings.EqualFold`.
unfoldable pub equal_fold : Text → Text → Bool
unfolding to_lower ◌==◌
equal_fold s t = to_lower s == to_lower t

unfoldable pub has_prefix : Text → Text → Bool
has_prefix s [] = true
has_prefix [] (_ ∷ _) = false
has_prefix (c ∷ s) (d ∷ p) = eqb c d && has_prefix s p

unfoldable pub trim_prefix : Text → Text → Text
unfolding has_prefix
trim_prefix s p = if has_prefix s p then drop (length p) s else s

unfoldable pub has_suffix : Text → Text → Bool
unfolding ◌==◌
has_suffix [] p = [] == p
has_suffix (c ∷ s) p = (c ∷ s) == p || has_suffix s p

-- The length of a text in bytes, in UTF-8: what Go's `len` counts.
unfoldable pub byte_length : Text → ℕ
byte_length [] = 0
byte_length (c ∷ s) =
    let rest = byte_length s in
    if ltb c 128
    then 1 + rest
    else if ltb c 2048
    then 2 + rest
    else if ltb c 65536
    then 3 + rest
    else 4 + rest

unfoldable pub trim_suffix : Text → Text → Text
unfolding ◌==◌
trim_suffix [] p = []
trim_suffix (c ∷ s) p = let rest = trim_suffix s p in if (c ∷ s) == p then [] else c ∷ rest

-- `strings.Index`: the position of the first occurrence; `none` where Go returns -1.
unfoldable pub index : Text → Text → Option ℕ
unfolding has_prefix
index [] p = if has_prefix [] p then some 0 else none
index (c ∷ s) p =
    let rest = index s p in
    if has_prefix (c ∷ s) p then some 0 else elim rest [ none ↦ none | some i ↦ some (suc i) ]

unfoldable pub contains : Text → Text → Bool
unfolding index
contains s p = elim (index s p) [ none ↦ false | some _ ↦ true ]

-- `strings.LastIndex` of one character.
unfoldable pub last_index : Text → ℕ → Option ℕ
last_index [] c = none
last_index (d ∷ s) c =
    let rest = last_index s c in
    elim rest [ some i ↦ some (suc i) | none ↦ if eqb d c then some 0 else none ]

-- The first part of a split grows by a character.
unfoldable pub extend : ℕ → List Text → List Text
extend c [] = (c ∷ []) ∷ []
extend c (part ∷ parts) = (c ∷ part) ∷ parts

-- `strings.Split` at one character.
unfoldable pub split : Text → ℕ → List Text
unfolding extend
split [] sep = [] ∷ []
split (c ∷ s) sep = let rest = split s sep in if eqb c sep then [] ∷ rest else extend c rest

-- `strings.SplitN` at one character: at most `n` parts, the last of them not cut.
unfoldable pub split_n : Text → ℕ → ℕ → List Text
unfolding extend
split_n [] sep zero = []
split_n [] sep (suc n) = [] ∷ []
split_n (c ∷ s) sep zero = []
split_n (c ∷ s) sep (suc zero) = (c ∷ s) ∷ []
split_n (c ∷ s) sep (suc (suc n)) =
    let cut = split_n s sep (suc n) in
    let longer = split_n s sep (suc (suc n)) in if eqb c sep then [] ∷ cut else extend c longer

-- The parts between characters that are space, the empty ones too.
unfoldable pub word_parts : Text → List Text
unfolding extend is_space
word_parts [] = [] ∷ []
word_parts (c ∷ s) = let rest = word_parts s in if is_space c then [] ∷ rest else extend c rest

-- The parts that are not empty.
unfoldable pub drop_empty : List Text → List Text
drop_empty [] = []
drop_empty (part ∷ parts) = elim part [ [] ↦ drop_empty parts | c ∷ s ↦ (c ∷ s) ∷ drop_empty parts ]

-- `strings.Fields`.
unfoldable pub fields : Text → List Text
unfolding word_parts drop_empty
fields s = drop_empty (word_parts s)

unfoldable pub join : List Text → Text → Text
join [] sep = []
join (p ∷ []) sep = p
join (p ∷ q ∷ ps) sep = p ++ sep ++ join (q ∷ ps) sep
