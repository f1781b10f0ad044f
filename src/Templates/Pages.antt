-- ===== src/Templates/Pages.antt =====
-- internal/templates/engine.go: once the engine is built, every page can be rendered.
use porcelain.Prelude.{
  Bool, false, List, [], ◌∷◌, ok, ◌≡◌, inl, inr, refl, arith, ◌||◌, is_found, Result-cases,
  Bool-cases, ap, sym, ok_inj, or_false, ◌∙◌,
}
use porcelain.Text.{Text, codes, ◌==◌}
use porcelain.Text.Affix.{eq_iff}
use porcelain.Text.Sort.{listed}
use porcelain.Text.Dict.{Dict, find, assign, find-erase_other}
use porcelain.Templates.{pages, Parser, parse_entry, parse_pages, new_engine, has_page}

-- The pages that the routes of internal/server/router.go render.
abbrev pub rendered : List Text
rendered =
    codes "dashboard"
    ∷ codes "storage"
    ∷ codes "storage-zfs"
    ∷ codes "network"
    ∷ codes "network-firewall"
    ∷ codes "network-cloudflare"
    ∷ codes "podman"
    ∷ codes "diagnostics"
    ∷ codes "sensors"
    ∷ []

-- Whether a name is that of an entry.
abbrev pub named : Text → List (Text × Text) → Bool
named k [] = false
named k ((name, _) ∷ rest) = name == k || named k rest

module _ (p : Parser) where
  open p use {Template}

  has_page-assign :
      (name : Text) (page : Template) (d : Dict Template) (k : Text)
      → has_page p (assign name page d) k ≡ (name == k || has_page p d k)
  unfolding has_page find assign
  has_page-assign name page d k = elim (Bool-cases (name == k)) [
    | inl e ↦ rw e refl
    | inr e ↦
        rw e (ap is_found (find-erase_other name k d (λ same. cc ((eq_iff name k).1 same, e))))
  ]

  parse_pages_lem :
      (base : Text) (entries : List (Text × Text)) (parsed engine : Dict Template) (k : Text)
      → parse_pages p base entries parsed ≡ ok engine
      → has_page p engine k ≡ named k entries || has_page p parsed k
  unfolding parse_pages has_page
  parse_pages_lem base [] parsed engine k e = ap (λ d. is_found (find k d)) (sym (ok_inj e))
  parse_pages_lem base ((name, file) ∷ rest) parsed engine k e =
      elim (Result-cases (parse_entry p base name file)) [
        | inl (_, failed) ↦ absurd (cc (rw (parse_pages, failed) at e))
        | inr (page, made) ↦
            let ih =
              parse_pages_lem base rest (assign name page parsed) engine k
                (rw (parse_pages, made) at e) in
            ground (arith, ih, has_page-assign name page parsed k)
      ]

  -- If the engine can be built, it has exactly the nine pages that the routes render.
  pub new_engine-has_page :
      (engine : Dict Template) (k : Text)
      → new_engine p ≡ ok engine
      → has_page p engine k ≡ listed k rendered
  unfolding new_engine has_page listed
  new_engine-has_page engine k e = elim (Result-cases (p.read_file (codes "base.html"))) [
    | inl (_, failed) ↦ absurd (cc (rw (new_engine, failed) at e))
    | inr (base, read) ↦
        parse_pages_lem base pages [] engine k (rw (new_engine, read) at e)
        ∙ or_false (named k pages)
  ]
