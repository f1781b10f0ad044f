-- ===== src/Server/Static/Tests.antt =====
-- The handler of static files on concrete requests.
use porcelain.Prelude.{false, [], ◌∷◌, none, some, ◌≡◌, refl, All, ok, if◌then◌else◌}
use porcelain.Text.{codes, ◌==◌}
use porcelain.Server.Static.{StaticFs, not_exist, status_reply, send_file, static_handler}
use porcelain.Server.Static.Laws.{StaysBelow, static_handler-StaysBelow}

-- One file, `css/app.css`.
abbrev files : StaticFs
files = record {
  open_file = λ path. if path == codes "css/app.css" then none else some not_exist;
  is_directory = λ path. some false;
  read_file = λ path. ok (codes "body");
}

static_handler_example : All StaysBelow (static_handler files (codes "/css/x/../app.css")).1
static_handler_example = static_handler-StaysBelow files (codes "/css/x/../app.css")

finds_cleaned :
    static_handler files (codes "/css/x/../app.css")
    ≡ (send_file (codes "text/css; charset=utf-8") (codes "body"), codes "css/app.css" ∷ [])
unfolding static_handler
finds_cleaned = refl

refuses_parent : static_handler files (codes "css/../../etc/passwd") ≡ (status_reply 403, [])
unfolding static_handler
refuses_parent = refl

-- Behind the root a part `..` is dropped, and the file system is asked for a rooted name.
drops_at_root :
    static_handler files (codes "//../app.css") ≡ (status_reply 404, codes "/app.css" ∷ [])
unfolding static_handler
drops_at_root = refl
