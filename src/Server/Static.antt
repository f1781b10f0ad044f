-- ===== src/Server/Static.antt =====
-- internal/server/router.go: `staticHandler` with `contentTypeFor`. The embedded file system is a
-- parameter; the result keeps the names that were opened.
pub mod Laws
mod Tests
use porcelain.Prelude.{
  ℕ, Bool, true, false, ◌||◌, List, [], ◌∷◌, Option, none, some, if◌then◌else◌, Result, ok, err,
  is_nil,
}
use porcelain.Text.{Text, codes, has_prefix, has_suffix, trim_prefix, contains}
use porcelain.Text.Path.{clean}

pub data FileError : Type 0 where
  not_exist : FileError
  other_error : Text → FileError

-- `Open`; `Stat`, which may fail, for whether the file is a directory; and `ReadFile`.
pub record StaticFs : Type 0 where
  pub open_file : Text → Option FileError
  pub is_directory : Text → Option Bool
  pub read_file : Text → Result Text Text

-- `SendStatus`, a status with the text of an error, or a file with its type.
pub data StaticReply : Type 0 where
  status_reply : ℕ → StaticReply
  send_error : ℕ → Text → StaticReply
  send_file : Text → Text → StaticReply

-- `http.DetectContentType` of no bytes is plain text.
unfoldable pub content_type_for : Text → Text
unfolding has_suffix
content_type_for name =
    if has_suffix name (codes ".css")
    then codes "text/css; charset=utf-8"
    else if has_suffix name (codes ".js")
    then codes "application/javascript; charset=utf-8"
    else if has_suffix name (codes ".svg")
    then codes "image/svg+xml"
    else if has_suffix name (codes ".png")
    then codes "image/png"
    else if has_suffix name (codes ".woff2")
    then codes "font/woff2"
    else codes "text/plain; charset=utf-8"

abbrev error_text : FileError → Text
error_text not_exist = codes "file does not exist"
error_text (other_error e) = e

-- The part of the handler behind the checks of the path.
unfoldable pub serve_file : StaticFs → Text → StaticReply × List Text
unfolding content_type_for
serve_file fs path = elim (fs.open_file path) [
  | some not_exist ↦ (status_reply 404, path ∷ [])
  | some (other_error e) ↦ (send_error 500 e, path ∷ [])
  | none ↦ elim (fs.is_directory path) [
    | none ↦ (status_reply 404, path ∷ [])
    | some true ↦ (status_reply 404, path ∷ [])
    | some false ↦ elim (fs.read_file path) [
      | err e ↦ (send_error 500 e, path ∷ [])
      | ok body ↦ (send_file (content_type_for path) body, path ∷ [])
    ]
  ]
]

-- The reply, and the names that were opened, for the rest of the path of the request.
unfoldable pub static_handler : StaticFs → Text → StaticReply × List Text
unfolding trim_prefix clean contains serve_file
static_handler fs wildcard =
    let rel = trim_prefix wildcard (codes "/") in
    let path = clean rel in
    if is_nil rel
    then (status_reply 404, [])
    else if has_prefix path (codes "..") || contains path (codes "/../")
    then (status_reply 403, [])
    else serve_file fs path
