-- ===== src/Auth.antt =====
-- internal/auth/dex.go: the claims that the authentication middleware derives from the headers.
pub mod Laws
mod Tests
use porcelain.Prelude.{ℕ, Bool, true, false, ◌||◌, List, [], ◌∷◌, Option, none, some, if◌then◌else◌}
use porcelain.Text.{Text, codes, ◌==◌, trim_space, trim_prefix, split}

pub record Claims : Type 0 where
  pub subject : Text
  pub groups : List Text
  pub token : Text

-- The headers that are read: `Authorization`, `X-Porcelain-Groups` and `X-Porcelain-Subject`;
-- an absent header is the empty text.
pub record Headers : Type 0 where
  pub authorization : Text
  pub porcelain_groups : Text
  pub porcelain_subject : Text

-- The parts that are not blank, trimmed. `csvOrDefault` of internal/config/config.go has the
-- same loop.
unfoldable pub trimmed_parts : List Text → List Text
trimmed_parts [] = []
trimmed_parts (part ∷ parts) =
    let trimmed = trim_space part in
    let rest = trimmed_parts parts in if trimmed == [] then rest else trimmed ∷ rest

unfoldable pub parse_groups : Text → List Text
unfolding trimmed_parts
parse_groups header =
    let given = trim_space header in if given == [] then [] else trimmed_parts (split given b',')

abbrev pub bearer : Text
bearer = codes "Bearer "

-- `extractClaims`; `none` where it returns false.
unfoldable pub extract_claims : Headers → Option Claims
unfolding parse_groups
extract_claims h =
    let header = trim_space h.authorization in
    let token = trim_space (trim_prefix header bearer) in
    let subject = trim_space h.porcelain_subject in
    if header == [] || (token == [] || token == header)
    then none
    else some (record {
      subject = if subject == [] then codes "unknown" else subject;
      groups = parse_groups h.porcelain_groups;
      token = token;
    })

-- What the middleware does: it lets the request go on, with claims or without, or answers 401.
pub data Verdict : Type 0 where
  go_on : Option Claims → Verdict
  unauthorized : Verdict

unfoldable pub middleware : Bool → Headers → Verdict
middleware enabled h =
    if enabled
    then elim (extract_claims h) [ some claims ↦ go_on (some claims) | none ↦ unauthorized ]
    else go_on none
