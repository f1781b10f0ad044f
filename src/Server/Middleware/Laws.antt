-- ===== src/Server/Middleware/Laws.antt =====
-- Which requests reach a handler of internal/server/router.go, and what they carry.
use porcelain.Prelude.{String, ◌⊎◌, inl, inr, refl, Bool, true, List, [], ◌∷◌, ◌++◌, some, ◌≡◌}
use porcelain.Text.{Text, trim_space}
use porcelain.Auth.{bearer}
use porcelain.Auth.Laws.{HasBearer, claims_with, middleware_with, middleware_without}
use porcelain.Server.{Request, note, Response, Fiber, App, Handler, sent, send_status}
use porcelain.Server.Middleware.{
  Certificate, new_peer_identity, Incoming, mtls_peer_identity, serve,
}

module _ (fiber : Fiber) {F : Type 0} (next : Request → Handler F) (i : Incoming) (app : App F)
    (response : Response) where
  serve_without_certificate :
      (auth_enabled : Bool)
      → i.peer_certificates ≡ []
      → serve fiber auth_enabled next i app response
        ≡ sent app (send_status fiber 401 (note "missing client certificate") response)
  unfolding serve
  serve_without_certificate auth_enabled e = rw (e, mtls_peer_identity)

  serve_without_token :
      (leaf : Certificate) (chain : List Certificate)
      → i.peer_certificates ≡ leaf ∷ chain
      → ¬ HasBearer i.headers
      → serve fiber true next i app response
        ≡ sent app (send_status fiber 401 (note "missing bearer token") response)
  unfolding serve
  serve_without_token leaf chain e missing =
      rw (e, mtls_peer_identity, middleware_without i.headers missing)

  by_chain :
      (chain : List Certificate)
      → i.peer_certificates ≡ chain
      → ¬ HasBearer i.headers
      → (text : String) × (serve fiber true next i app response
          ≡ sent app (send_status fiber 401 (note text) response))
  by_chain [] e missing = ("missing client certificate", serve_without_certificate true e)
  by_chain (leaf ∷ chain) e missing =
      ("missing bearer token", serve_without_token leaf chain e missing)

  -- With authentication on, a request without a client certificate or without a bearer token is
  -- answered with 401 and a note, and no handler runs: the state of the program is as before.
  pub serve_unidentified :
      (i.peer_certificates ≡ []) ⊎ (¬ HasBearer i.headers)
      → (text : String) × (serve fiber true next i app response
          ≡ sent app (send_status fiber 401 (note text) response))
  serve_unidentified (inl none_sent) =
      ("missing client certificate", serve_without_certificate true none_sent)
  serve_unidentified (inr missing) = by_chain i.peer_certificates refl missing

  -- With authentication on, a request with a certificate and a bearer token reaches its handler,
  -- with the identity of the first certificate and the claims of the headers.
  pub serve_with_token :
      (leaf : Certificate) (chain : List Certificate) (r : Text)
      → i.peer_certificates ≡ leaf ∷ chain
      → trim_space i.headers.authorization ≡ bearer ++ r
      → serve fiber true next i app response
        ≡ next
            (record i.request {
              claims = some (claims_with i.headers (trim_space r));
              peer = some (new_peer_identity leaf);
            })
            app
            response
  unfolding serve
  serve_with_token leaf chain r e whole =
      rw (e, mtls_peer_identity, middleware_with i.headers r whole)
