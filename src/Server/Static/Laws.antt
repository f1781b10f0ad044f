-- ===== src/Server/Static/Laws.antt =====
-- internal/server/router.go: no request for a static file leaves the directory of static files.
use porcelain.Prelude.{◌||◌, [], ◌∷◌, ◌≡◌, ◌≢◌, inl, inr, arith, All, Bool-cases, is_nil}
use porcelain.Text.{Text, codes, split, has_prefix, trim_prefix, contains}
use porcelain.Text.Path.{clean, dot_dot}
use porcelain.Text.Path.Laws.{clean_lem}
use porcelain.Server.Static.{StaticFs, serve_file, static_handler}

-- No part of the path is `..`.
abbrev pub StaysBelow : Text → Type 0
StaysBelow path = All (λ part. part ≢ dot_dot) (split path b'/')

serve_file-opened : (fs : StaticFs) (path : Text) → (serve_file fs path).1 ≡ path ∷ []
unfolding serve_file
serve_file-opened fs path = ground arith

-- Whatever the request asks for, no name that the handler opens has a part `..`.
pub static_handler-StaysBelow :
    (fs : StaticFs) (wildcard : Text) → All StaysBelow (static_handler fs wildcard).1
unfolding static_handler
static_handler-StaysBelow fs wildcard =
    let rel = trim_prefix wildcard (codes "/") in
    elim (Bool-cases (is_nil rel)) [
      | inl e ↦ rw (static_handler, e) tt
      | inr e ↦
          elim (Bool-cases
            (has_prefix (clean rel) (codes "..") || contains (clean rel) (codes "/../"))) [
              | inl d ↦ rw (static_handler, e, d) tt
              | inr d ↦
                  rw (static_handler, e, d, serve_file-opened fs (clean rel))
                    (clean_lem rel (ground (arith, d)), tt)
            ]
    ]
