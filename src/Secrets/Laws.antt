-- ===== src/Secrets/Laws.antt =====
-- What a writer and a watcher of internal/secrets/memory.go can rely on.
use porcelain.Prelude.{
  some_inj, ℕ, zero, suc, Bool, true, false, ◌||◌, List, [], ◌∷◌, ◌++◌, Option, none, some, ok, ◌≡◌,
  ◌≢◌, ◌↔◌, refl, arith, sym, map, inl, inr, Bool-cases, subst, Option-cases, if◌then◌else◌, length,
  ◌<◌,
}
use porcelain.Text.{Text, ◌==◌}
use porcelain.Text.Affix.{eq_iff}
use porcelain.Text.Dict.{assign, find-assign, find-assign_other}
use porcelain.Secrets.{
  SecretValue, Channel, MemoryStore, watchers_of, get_secret, offer, fan_out, stamped, put_secret,
  clone_secret_value, delete_secret, watch, change_at, close_channel, drain_channel, cancel,
  receive, receiving, Event, putting, deleting, watching, cancelling, happen, happen_all,
}

-- Some channel of the list is closed.
unfoldable pub any_closed : List Channel → Bool
any_closed [] = false
any_closed (c ∷ channels) = c.closed || any_closed channels

-- What a send that does not block does to an open channel.
unfoldable pub delivered : SecretValue → Channel → Channel
delivered value c = elim c.buffer [ none ↦ record c { buffer = some value } | some _ ↦ c ]

fan_out_open :
    (value : SecretValue) (channels : List Channel)
    → any_closed channels ≡ false
    → fan_out value channels ≡ some (map (delivered value) channels)
unfolding fan_out any_closed offer delivered
fan_out_open value [] h = refl
fan_out_open value (c ∷ channels) h = let ih = fan_out_open value channels in ground (arith, ih)

fan_out_closed :
    (value : SecretValue) (channels : List Channel)
    → any_closed channels ≡ true
    → fan_out value channels ≡ none
unfolding fan_out any_closed offer
fan_out_closed value [] h = cc
fan_out_closed value (c ∷ channels) h = let ih = fan_out_closed value channels in ground (arith, ih)

module _ (now : ℕ) (path : Text) (value : Option SecretValue) (m : MemoryStore) where
  -- A write panics exactly if the context of some watch on its path has ended: the store never
  -- forgets a channel.
  pub put_secret-eq-none_iff :
      (put_secret now path value m ≡ none) ↔ (any_closed (watchers_of path m) ≡ true)
  unfolding put_secret
  put_secret-eq-none_iff = elim (Bool-cases (any_closed (watchers_of path m))) [
    | inl e ↦ (
      λ _. e,
      λ _. rw (put_secret, fan_out_closed (stamped now value) (watchers_of path m) e) refl,
    )
    | inr e ↦ (
      λ h.
          absurd
            (cc (rw (put_secret, fan_out_open (stamped now value) (watchers_of path m) e) at h)),
      λ h. absurd (cc (h, e)),
    )
  ]

  pub put_secret_stored :
      any_closed (watchers_of path m) ≡ false
      → (m' : MemoryStore) × (put_secret now path value m ≡ some m')
        × (get_secret m' path ≡ ok (stamped now value))
        × ((other : Text) → path ≢ other → get_secret m' other ≡ get_secret m other)
        × (watchers_of path m' ≡ map (delivered (stamped now value)) (watchers_of path m))
  unfolding put_secret get_secret watchers_of
  put_secret_stored h =
      let cloned = stamped now value in
      let channels = map (delivered cloned) (watchers_of path m) in
      (
        record { values = assign path cloned m.values; watchers = assign path channels m.watchers },
        rw (put_secret, fan_out_open cloned (watchers_of path m) h) refl,
        rw (get_secret, find-assign path cloned m.values) refl,
        λ other differs. rw (get_secret, find-assign_other path other cloned m.values differs) refl,
        rw (watchers_of, find-assign path channels m.watchers) refl,
      )

-- What a reader finds after a write: every field as it was written, but for a time of creation that
-- was not given, which is the time of the write. A nil pointer counts as a secret without anything.
abbrev pub as_written : ℕ → Option SecretValue → SecretValue
as_written now none = record {
  data_bytes = [];
  version = [];
  created_at = some now;
  expires_at = none;
  metadata = none;
}
as_written now (some value) = record {
  data_bytes = value.data_bytes;
  version = value.version;
  created_at = elim value.created_at [ none ↦ some now | some t ↦ some t ];
  expires_at = value.expires_at;
  metadata = value.metadata;
}

filled_in :
    (now : ℕ) (value : SecretValue) (given : Option ℕ)
    → (elim given as (λ _. SecretValue) [
      | none ↦ record value { created_at = some now }
      | some _ ↦ record value { created_at = given }
    ])
      ≡ record value { created_at = elim given [ none ↦ some now | some t ↦ some t ] }
filled_in now value none = refl
filled_in now value (some t) = refl

stamped_lem : (now : ℕ) (value : Option SecretValue) → stamped now value ≡ as_written now value
unfolding stamped clone_secret_value
stamped_lem now none = refl
stamped_lem now (some value) = filled_in now value value.created_at

-- If no watch on the path has ended, a write succeeds; the secret then reads as written, with its
-- time of creation filled in if none was given, every other path reads as before, and each watcher
-- of the path that has nothing to read gets the new value, while the others keep what they have.
pub put_secret_writes :
    (now : ℕ) (path : Text) (value : Option SecretValue) (m : MemoryStore)
    → any_closed (watchers_of path m) ≡ false
    → (m' : MemoryStore) × (put_secret now path value m ≡ some m')
      × (get_secret m' path ≡ ok (as_written now value))
      × ((other : Text) → path ≢ other → get_secret m' other ≡ get_secret m other)
      × (watchers_of path m' ≡ map (delivered (as_written now value)) (watchers_of path m))
put_secret_writes now path value m h =
    rw (sym (stamped_lem now value)) (put_secret_stored now path value m h)

-- A channel of the path is closed.
abbrev pub IsBroken : Text → MemoryStore → Type 0
IsBroken path m = any_closed (watchers_of path m) ≡ true

any_closed-change_at :
    (f : Channel → Channel) (i : ℕ) (channels : List Channel)
    → ((c : Channel) → c.closed ≡ true → (f c).closed ≡ true)
    → any_closed channels ≡ true
    → any_closed (change_at f i channels) ≡ true
unfolding any_closed change_at
any_closed-change_at f i [] keeps h = h
any_closed-change_at f zero (c ∷ channels) keeps h = let kept = keeps c in ground (arith, kept)
any_closed-change_at f (suc i) (c ∷ channels) keeps h =
    let ih = any_closed-change_at f i channels keeps in ground (arith, ih)

any_closed-append :
    (channels : List Channel) (c : Channel)
    → any_closed channels ≡ true
    → any_closed (channels ++ c ∷ []) ≡ true
unfolding any_closed
any_closed-append [] c h = cc
any_closed-append (d ∷ channels) c h = let ih = any_closed-append channels c in ground (arith, ih)

close_one :
    (channels : List Channel) (i : ℕ)
    → i < length channels
    → any_closed (change_at close_channel i channels) ≡ true
unfolding any_closed change_at
close_one [] i h = absurd (omega (arith, h))
close_one (c ∷ channels) zero h = ground arith
close_one (c ∷ channels) (suc i) h =
    let ih = close_one channels i (omega (arith, h)) in ground (arith, ih)

-- The channels of a path after the channels of some path have been replaced.
watchers_of-assign :
    (path other : Text) (channels : List Channel) (m : MemoryStore)
    → watchers_of path (record m { watchers = assign other channels m.watchers })
      ≡ (if other == path then channels else watchers_of path m)
unfolding watchers_of
watchers_of-assign path other channels m = elim (Bool-cases (other == path)) [
  | inl e ↦
      let same : other ≡ path = (eq_iff other path).0 e in
      rw (e, sym same) (rw (watchers_of, find-assign other channels m.watchers) refl)
  | inr e ↦
      rw
        (
          e,
          watchers_of,
          find-assign_other other path channels m.watchers
              (λ same. absurd (cc (e, (eq_iff other path).1 same))),
        )
        refl
]

module _ (path : Text) where
  assign-IsBroken :
      (other : Text) (channels : List Channel) (m : MemoryStore)
      → (any_closed (watchers_of other m) ≡ true → any_closed channels ≡ true)
      → IsBroken path m
      → IsBroken path (record m { watchers = assign other channels m.watchers })
  assign-IsBroken other channels m keeps h =
      let shown = watchers_of-assign path other channels m in
      elim (Bool-cases (other == path)) [
        | inl e ↦
            let same : other ≡ path = (eq_iff other path).0 e in cc (shown, e, keeps (rw same h))
        | inr e ↦ cc (shown, e, h)
      ]

  happen-IsBroken :
      (e : Event) (m m' : MemoryStore) → IsBroken path m → happen e m ≡ some m' → IsBroken path m'
  unfolding happen put_secret delete_secret watch cancel receive watchers_of
  happen-IsBroken (putting now other value) m m' h ran =
      elim (Bool-cases (any_closed (watchers_of other m))) [
        | inl e ↦ absurd (
            cc (rw (put_secret, fan_out_closed (stamped now value) (watchers_of other m) e) at ran))
        | inr e ↦
            let cloned = stamped now value in
            let written : some (record {
              values = assign other cloned m.values;
              watchers = assign other (map (delivered cloned) (watchers_of other m)) m.watchers;
            })
                ≡ some m' =
              rw (put_secret, fan_out_open cloned (watchers_of other m) e) at ran in
            subst (IsBroken path) (some_inj written) (
              assign-IsBroken other (map (delivered cloned) (watchers_of other m)) m
                (λ f. absurd (cc (e, f))) h)
      ]
  happen-IsBroken (deleting other) m m' h ran = subst (IsBroken path) (some_inj ran) h
  happen-IsBroken (watching other) m m' h ran =
      subst (IsBroken path) (some_inj ran)
        (assign-IsBroken other _ m (any_closed-append (watchers_of other m) _) h)
  happen-IsBroken (cancelling other i) m m' h ran = subst (IsBroken path) (some_inj ran) (
      assign-IsBroken other _ m
        (any_closed-change_at close_channel i (watchers_of other m) (λ c _. refl)) h)
  happen-IsBroken (receiving other i) m m' h ran = subst (IsBroken path) (some_inj ran) (
      assign-IsBroken other _ m
        (any_closed-change_at drain_channel i (watchers_of other m) (λ c closed. closed)) h)

  ended-IsBroken :
      (i : ℕ) (m : MemoryStore) → i < length (watchers_of path m) → IsBroken path (cancel path i m)
  unfolding cancel
  ended-IsBroken i m h =
      let channels = change_at close_channel i (watchers_of path m) in
      rw (watchers_of-assign path path channels m, (eq_iff path path).1 refl)
        (close_one (watchers_of path m) i h)

  happen_all-IsBroken :
      (events : List Event) (m m' : MemoryStore)
      → IsBroken path m
      → happen_all events m ≡ some m'
      → IsBroken path m'
  unfolding happen_all
  happen_all-IsBroken [] m m' h ran = subst (IsBroken path) (some_inj ran) h
  happen_all-IsBroken (e ∷ events) m m' h ran = elim (Option-cases (happen e m)) [
    | inl stuck ↦ absurd (cc (rw (happen_all, stuck) at ran))
    | inr (next, went) ↦
        happen_all-IsBroken events next m' (happen-IsBroken e m next h went)
          (rw (happen_all, went) at ran)
  ]

  -- Once the context of any watch of a path has ended, whatever has happened to the store before
  -- and whatever happens after, every later write to the path panics.
  pub happen_all-put_secret :
      (i : ℕ) (events : List Event) (m m' : MemoryStore) (now : ℕ) (value : Option SecretValue)
      → i < length (watchers_of path m)
      → happen_all (cancelling path i ∷ events) m ≡ some m'
      → put_secret now path value m' ≡ none
  unfolding happen_all happen
  happen_all-put_secret i events m m' now value watched ran =
      (put_secret-eq-none_iff now path value m').1
        (happen_all-IsBroken events (cancel path i m) m' (ended-IsBroken i m watched) ran)
