-- ===== src/Server/Stream/Laws.antt =====
-- What a client reads from the event stream of internal/server/router.go.
use porcelain.Prelude.{
  ℕ, Bool, true, false, ◌&&◌, List, [], ◌∷◌, ◌++◌, Option, none, some, if◌then◌else◌, eqb, ◌≡◌, ◌≢◌,
  refl, arith, All, All-append, append_assoc, is_nil, Bool-cases, inl, inr,
}
use porcelain.Text.{Text, codes, ◌==◌, extend, split, join}
use porcelain.Text.Split.{Lacks, split-Lacks, join-split, split-ne-nil}
use porcelain.Server.Stream.{sse_data, write_sse_event}

-- How a client reads the first event of a stream, by the rules for event streams in HTML. A line ends
-- in a line feed, in a carriage return or in both: here, with a line feed in place of each.
unfoldable pub line_breaks : Bool → Text → Text
line_breaks after_return [] = []
line_breaks after_return (c ∷ s) =
    let returned = line_breaks true s in
    let plain = line_breaks false s in
    if eqb c b'\r'
    then b'\n' ∷ returned
    else if eqb c b'\n' && after_return
    then plain
    else c ∷ plain

-- One space in front of a value does not count.
unfoldable pub drop_space : Text → Text
drop_space [] = []
drop_space (c ∷ s) = if eqb c b' ' then s else c ∷ s

-- The name of a field, up to the first colon, and its value.
unfoldable pub field : Text → Text × Text
unfolding drop_space
field [] = ([], [])
field (c ∷ s) =
    let (key, value) = field s in if eqb c b':' then ([], drop_space s) else (c ∷ key, value)

-- The name of the event, if there is one, and its data, line by line, after one more field: the last
-- name counts, and fields of other names do not.
unfoldable pub take_field : Text × Text → Option Text × List Text → Option Text × List Text
take_field (key, value) (name, data_lines) =
    if key == codes "data"
    then (name, value ∷ data_lines)
    else if key == codes "event"
    then (elim name [ none ↦ some value | some later ↦ some later ], data_lines)
    else (name, data_lines)

-- The lines up to the first empty line; without one, there is no event.
unfoldable pub read_lines : List Text → Option (Option Text × List Text)
unfolding take_field field
read_lines [] = none
read_lines (line ∷ lines) =
    let rest = read_lines lines in
    if is_nil line
    then some (none, [])
    else elim rest [ none ↦ none | some event ↦ some (take_field (field line) event) ]

-- An event without data is dropped; one without a name is a message.
unfoldable pub dispatch : Option Text × List Text → Option (Text × Text)
dispatch (name, []) = none
dispatch (none, line ∷ lines) = some (codes "message", join (line ∷ lines) (b'\n' ∷ []))
dispatch (some [], line ∷ lines) = some (codes "message", join (line ∷ lines) (b'\n' ∷ []))
dispatch (some (c ∷ s), line ∷ lines) = some (c ∷ s, join (line ∷ lines) (b'\n' ∷ []))

unfoldable pub read_sse_event : Text → Option (Text × Text)
unfolding line_breaks read_lines dispatch
read_sse_event s = elim (read_lines (split (line_breaks false s) b'\n')) [
  | none ↦ none
  | some event ↦ dispatch event
]

line_breaks_none : (s : Text) → Lacks b'\r' s → line_breaks false s ≡ s
unfolding line_breaks
line_breaks_none [] h = refl
line_breaks_none (c ∷ s) (d, h) = let ih = line_breaks_none s h in ground (arith, d, ih)

split-line :
    (sep : ℕ) (line rest : Text)
    → Lacks sep line
    → split (line ++ sep ∷ rest) sep ≡ line ∷ split rest sep
unfolding split extend
split-line sep [] rest h = ground arith
split-line sep (c ∷ line) rest (h, k) = let ih = split-line sep line rest k in ground (arith, ih)

-- The lines that are written for the data, and the empty line.
read_lines-sse_data :
    (lines : List Text)
    → All (Lacks b'\n') lines
    → read_lines (split (sse_data lines ++ b'\n' ∷ []) b'\n') ≡ some (none, lines)
unfolding read_lines sse_data ◌==◌ field drop_space take_field
read_lines-sse_data [] h = rw (split-line b'\n' [] [] tt) refl
read_lines-sse_data (line ∷ lines) (h, hs) =
    let marker : Lacks b'\n' (codes "data: ") = ground arith in
    let whole = All-append (λ c. c ≢ b'\n') (codes "data: ") line marker h in
    let rest = sse_data lines ++ b'\n' ∷ [] in
    rw
      (
        append_assoc line (b'\n' ∷ sse_data lines) (b'\n' ∷ []),
        split-line b'\n' (codes "data: " ++ line) rest whole,
        read_lines-sse_data lines hs,
      )
      refl

-- Nothing of an event has a character that neither its name nor its data has.
sse_data-Lacks : (lines : List Text) → All (Lacks b'\r') lines → Lacks b'\r' (sse_data lines)
unfolding sse_data
sse_data-Lacks [] h = tt
sse_data-Lacks (line ∷ lines) (h, hs) =
    let marker : Lacks b'\r' (codes "data: ") = ground arith in
    All-append (λ c. c ≢ b'\r') (codes "data: ") (line ++ b'\n' ∷ sse_data lines) marker
      (All-append (λ c. c ≢ b'\r') line (b'\n' ∷ sse_data lines) h
        ((λ e. cc e), sse_data-Lacks lines hs))

extend-All :
    (c : ℕ) (parts : List Text)
    → c ≢ b'\r'
    → All (Lacks b'\r') parts
    → All (Lacks b'\r') (extend c parts)
unfolding extend
extend-All c [] d h = ((d, tt), tt)
extend-All c (p ∷ parts) d (h, hs) = ((d, h), hs)

split-NoReturn : (s : Text) → Lacks b'\r' s → All (Lacks b'\r') (split s b'\n')
unfolding split
split-NoReturn [] h = (tt, tt)
split-NoReturn (c ∷ s) (d, h) = elim (Bool-cases (eqb c b'\n')) [
  | inl e ↦ rw e (tt, split-NoReturn s h)
  | inr e ↦ rw e (extend-All c (split s b'\n') d (split-NoReturn s h))
]

write_sse_event-Lacks :
    (name data_text : Text)
    → Lacks b'\r' name
    → Lacks b'\r' data_text
    → Lacks b'\r' (write_sse_event name data_text)
unfolding write_sse_event
write_sse_event-Lacks name data_text h k =
    let marker : Lacks b'\r' (codes "event: ") = ground arith in
    let lines = sse_data (split data_text b'\n') in
    All-append (λ c. c ≢ b'\r') (codes "event: ") (name ++ b'\n' ∷ (lines ++ b'\n' ∷ [])) marker
      (All-append (λ c. c ≢ b'\r') name (b'\n' ∷ (lines ++ b'\n' ∷ [])) h
        (
          (λ e. cc e),
          All-append (λ c. c ≢ b'\r') lines (b'\n' ∷ [])
              (sse_data-Lacks (split data_text b'\n') (split-NoReturn data_text k))
              ((λ e. cc e), tt),
        ))

dispatch_named :
    (c : ℕ) (name : Text) (lines : List Text)
    → lines ≢ []
    → dispatch (some (c ∷ name), lines) ≡ some (c ∷ name, join lines (b'\n' ∷ []))
unfolding dispatch
dispatch_named c name [] h = absurd (h refl)
dispatch_named c name (line ∷ lines) h = refl

-- A client reads each event as it was written, if its name is not empty and has no line feed, and
-- neither its name nor its data has a carriage return; the data may have line feeds.
pub read_sse_event-write_sse_event :
    (name data_text : Text)
    → name ≢ []
    → Lacks b'\n' name
    → Lacks b'\r' name
    → Lacks b'\r' data_text
    → read_sse_event (write_sse_event name data_text) ≡ some (name, data_text)
unfolding read_sse_event write_sse_event read_lines field drop_space take_field ◌==◌
read_sse_event-write_sse_event [] data_text n h j k = absurd (n refl)
read_sse_event-write_sse_event (c ∷ s) data_text n h j k =
    let name = c ∷ s in
    let lines = split data_text b'\n' in
    let marker : Lacks b'\n' (codes "event: ") = ground arith in
    let whole = All-append (λ c. c ≢ b'\n') (codes "event: ") name marker h in
    let rest = sse_data lines ++ b'\n' ∷ [] in
    rw
      (
        read_sse_event,
        line_breaks_none (write_sse_event name data_text)
            (write_sse_event-Lacks name data_text j k),
        write_sse_event,
        split-line b'\n' (codes "event: " ++ name) rest whole,
        read_lines-sse_data lines (split-Lacks data_text b'\n'),
        dispatch_named c s lines (split-ne-nil data_text b'\n'),
        join-split data_text b'\n',
      )
      refl
