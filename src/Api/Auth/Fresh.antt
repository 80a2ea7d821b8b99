-- ===== src/Api/Auth/Fresh.antt =====
-- How old an answer of the authentication can be: the cache never outlives its time, and an outage is never
-- kept.
use payment_gateway_sandbox.Prelude.{
  ℕ, ◌+◌, ◌≡◌, ◌≢◌, ◌≤◌, ◌<◌, ◌⊎◌, refl, ap, sym, ◌∙◌, arith, Bool-cases, Option-cases, Option,
  none, some, List, [], ◌∷◌, ◌==◌, if◌then◌else◌, inl, inr,
}
use payment_gateway_sandbox.Prelude.Lists.{All}
use payment_gateway_sandbox.Prelude.Bytes.{Bytes}
use payment_gateway_sandbox.Prelude.Result.{Result, ok, err}
use payment_gateway_sandbox.Store.Error.{row_is_not_found}
use payment_gateway_sandbox.Domain.ApiKey.{ApiKey, ApiKeyKind, secret, publishable}
use payment_gateway_sandbox.Api.Error.{ApiError, unauthorized, unavailable}
use payment_gateway_sandbox.Api.Auth.Cache.{
  AuthCtx, Outcome, resolved, rejected, AuthCache, Entry, lookup, store, should_touch, find_entry,
  make_room, invalidate_key, invalidate_all, with_settings, is_enabled, is_recent, last_touch,
}
use payment_gateway_sandbox.Api.Auth.Entries.{
  remove_entry-All, drop_key-All, find_entry-All, make_room-All,
}
use payment_gateway_sandbox.Api.Auth.{
  Lookup, answered, timed_out, resolve, from_cache, looked_up, accepted, ctx_of,
}

-- What a lookup says of a hash, if it says anything.
abbrev pub by_kind : ApiKey → ApiKeyKind → Outcome
by_kind key secret = resolved (ctx_of key)
by_kind key publishable = rejected

abbrev pub verdict : Lookup → Option Outcome
verdict timed_out = none
verdict (answered (err e)) = if row_is_not_found e then some rejected else none
verdict (answered (ok key)) = some (by_kind key key.kind)

-- How a verdict is answered: an outage is no refusal.
abbrev pub answer_of : Option Outcome → Result AuthCtx ApiError
answer_of none = err unavailable
answer_of (some rejected) = err unauthorized
answer_of (some (resolved ctx)) = ok ctx

pub data Operation : Type 0 where
  request : Bytes → ℕ → Operation
  invalidated : ℕ → Operation
  all_invalidated : Operation

-- `truth t hash` is what a lookup of the hash comes to at the time `t`.
module _ (truth : ℕ → Bytes → Lookup) where
  unfoldable pub operate : Operation → AuthCache → AuthCache
  unfolding resolve invalidate_key invalidate_all
  operate (request hash now) c = (resolve hash now (truth now hash) c).cache
  operate (invalidated key) c = invalidate_key key c
  operate all_invalidated c = invalidate_all c

  unfoldable pub operate_all : List Operation → AuthCache → AuthCache
  unfolding operate
  operate_all [] c = c
  operate_all (o ∷ os) c = operate_all os (operate o c)

  -- An entry is what some lookup said, at a time from which its life is counted.
  abbrev CameFrom : ℕ → Entry → Type 0
  CameFrom ttl e = (t : ℕ) × (verdict (truth t e.hash) ≡ some e.outcome) × (e.expires_at ≡ t + ttl)

  -- The cache's settings stay, and every entry comes from a lookup.
  abbrev Fresh : ℕ → AuthCache → Type 0
  Fresh ttl c = (c.ttl ≡ ttl) × All (CameFrom ttl) c.entries

  store-Fresh :
      (ttl : ℕ) (hash : Bytes) (outcome : Outcome) (now : ℕ) (c : AuthCache)
      → verdict (truth now hash) ≡ some outcome
      → Fresh ttl c
      → Fresh ttl (store hash outcome now c)
  unfolding store
  store-Fresh ttl hash outcome now c v h = elim (Bool-cases (is_enabled c)) [
    | inl p ↦ rw p (
      h.0,
      (
        (now, v, ap (λ (x : ℕ). now + x) h.0),
        remove_entry-All (CameFrom ttl) hash (make_room c.capacity now c.entries)
            (make_room-All (CameFrom ttl) c.capacity now c.entries h.1),
      ),
    )
    | inr p ↦ rw p h
  ]

  should_touch-Fresh :
      (ttl key now : ℕ) (c : AuthCache) → Fresh ttl c → Fresh ttl (should_touch key now c).1
  unfolding should_touch
  should_touch-Fresh ttl key now c h = elim (Bool-cases (c.touch_interval == 0)) [
    | inl p ↦ rw p h
    | inr p ↦ elim (Bool-cases (is_recent c.touch_interval now (last_touch key c.touches))) [
      | inl q ↦ rw (p, q) h
      | inr q ↦ rw (p, q) h
    ]
  ]

  looked_up-Fresh :
      (ttl : ℕ) (hash : Bytes) (now : ℕ) (found : Lookup) (c : AuthCache)
      → truth now hash ≡ found
      → Fresh ttl c
      → Fresh ttl (looked_up hash now found c).cache
        × ((looked_up hash now found c).answer ≡ answer_of (verdict found))
  looked_up-Fresh ttl hash now timed_out c e h = (h, refl)
  looked_up-Fresh ttl hash now (answered (err s)) c e h = elim (Bool-cases (row_is_not_found s)) [
    | inl p ↦ rw p (store-Fresh ttl hash rejected now c (rw (e, p) refl) h, refl)
    | inr p ↦ rw p (h, refl)
  ]
  looked_up-Fresh ttl hash now (answered (ok key)) c e h = accepted_fresh key.kind refl
    where
      accepted_fresh :
          (kind : ApiKeyKind)
          → key.kind ≡ kind
          → Fresh ttl (accepted hash now key kind c).cache
            × ((accepted hash now key kind c).answer ≡ answer_of (some (by_kind key kind)))
      accepted_fresh secret k = (
        should_touch-Fresh ttl key.id now (store hash (resolved (ctx_of key)) now c)
            (store-Fresh ttl hash (resolved (ctx_of key)) now c (rw (e, k) refl) h),
        refl,
      )
      accepted_fresh publishable k = (store-Fresh ttl hash rejected now c (rw (e, k) refl) h, refl)

  -- What is served from the cache.
  lookup-Fresh :
      (ttl : ℕ) (hash : Bytes) (now : ℕ) (c : AuthCache) (o : Outcome)
      → lookup hash now c ≡ some o
      → Fresh ttl c
      → (t : ℕ) × (verdict (truth t hash) ≡ some o) × (now < t + ttl)
  unfolding lookup
  lookup-Fresh ttl hash now c o l h = elim (Option-cases (find_entry hash c.entries)) [
    | inl n ↦ ground arith
    | inr (e, f) ↦
        let from = find_entry-All (CameFrom ttl) hash c.entries e h.1 f in
        let same : (e.outcome ≡ o) × (now < e.expires_at) = ground arith in
        (from.0.0, rw (← from.1, ← same.0) from.0.1, rw (← from.0.2) same.1)
  ]

  served :
      (hash : Bytes) (now : ℕ) (found : Lookup) (c : AuthCache) (o : Outcome)
      → let r = from_cache hash now found c (some o) in
        (r.cache ≡ c) × (r.answer ≡ answer_of (some o))
  served hash now found c (resolved ctx) = (refl, refl)
  served hash now found c rejected = (refl, refl)

  resolve-Fresh :
      (ttl : ℕ) (hash : Bytes) (now : ℕ) (c : AuthCache)
      → Fresh ttl c
      → let r = resolve hash now (truth now hash) c in
        Fresh ttl r.cache
        × ((t : ℕ) × (r.answer ≡ answer_of (verdict (truth t hash)))
            × ((t ≡ now) ⊎ (now < t + ttl)))
  unfolding resolve
  resolve-Fresh ttl hash now c h = elim (Option-cases (lookup hash now c)) [
    | inl n ↦
        let u = looked_up-Fresh ttl hash now (truth now hash) c refl h in
        rw n (u.0, (now, u.1, inl refl))
    | inr (o, l) ↦
        let from = lookup-Fresh ttl hash now c o l h in
        let r = served hash now (truth now hash) c o in
        rw l (rw r.0 h, (from.0, r.1 ∙ ap answer_of (sym from.1), inr from.2))
  ]

  operate_all-Fresh :
      (ttl : ℕ) (os : List Operation) (c : AuthCache) → Fresh ttl c → Fresh ttl (operate_all os c)
  unfolding operate_all operate invalidate_key invalidate_all
  operate_all-Fresh ttl [] c h = h
  operate_all-Fresh ttl (request hash now ∷ os) c h =
      operate_all-Fresh ttl os (resolve hash now (truth now hash) c).cache
        (resolve-Fresh ttl hash now c h).0
  operate_all-Fresh ttl (invalidated key ∷ os) c h =
      operate_all-Fresh ttl os (invalidate_key key c)
        (h.0, drop_key-All (CameFrom ttl) key c.entries h.1)
  operate_all-Fresh ttl (all_invalidated ∷ os) c h =
      operate_all-Fresh ttl os (invalidate_all c) (h.0, tt)

  -- Whatever requests and invalidations a new cache has seen, a request is answered by what a lookup of its
  -- hash comes to, either now or at a time that lies less than the cache's time to live back.
  pub answers_are_fresh :
      (ttl capacity interval : ℕ) (os : List Operation) (hash : Bytes) (now : ℕ)
      → let c = operate_all os (with_settings ttl capacity interval) in
        (t : ℕ) × ((resolve hash now (truth now hash) c).answer
          ≡ answer_of (verdict (truth t hash)))
        × ((t ≡ now) ⊎ (now < t + ttl))
  answers_are_fresh ttl capacity interval os hash now =
      (resolve-Fresh ttl hash now (operate_all os (with_settings ttl capacity interval))
        (operate_all-Fresh ttl os (with_settings ttl capacity interval) (refl, tt))).1

  answer_of-ok :
      (v : Option Outcome) (ctx : AuthCtx) → answer_of v ≡ ok ctx → v ≡ some (resolved ctx)
  answer_of-ok none ctx h = cc
  answer_of-ok (some rejected) ctx h = cc
  answer_of-ok (some (resolved x)) ctx h = cc

  -- A hash that no lookup resolves from some time on (its key is revoked) is let through by no request that
  -- comes the time to live after that, whatever the cache has seen.
  pub revocation_takes_effect :
      (ttl capacity interval : ℕ) (os : List Operation) (hash : Bytes) (revoked_at now : ℕ)
      (ctx : AuthCtx)
      → ((t : ℕ) → revoked_at ≤ t → verdict (truth t hash) ≢ some (resolved ctx))
      → revoked_at + ttl ≤ now
      → (resolve hash now
          (truth now hash)
          (operate_all os (with_settings ttl capacity interval))).answer
        ≢ ok ctx
  revocation_takes_effect ttl capacity interval os hash revoked_at now ctx never late e =
      let (t, same, recent) = answers_are_fresh ttl capacity interval os hash now in
      never t (elim recent [ inl p ↦ omega arith | inr p ↦ omega arith ])
        (answer_of-ok (verdict (truth t hash)) ctx (sym same ∙ e))
