-- ===== src/Api/Auth/Cache.antt =====
-- The cache of key lookups (`AuthCache` in crates/api/auth.rs). A map is a list of pairs with one pair for
-- a key; the monotonic clock and its durations are numbers.
use payment_gateway_sandbox.Prelude.{
  ℕ, ◌+◌, ◌-◌, ◌≡◌, ◌≢◌, ◌≤◌, ◌<◌, arith, Bool, true, false, Option-cases, not, ◌&&◌, Option, none,
  some, List, [], ◌∷◌, ltb, leb, ◌==◌, if◌then◌else◌, inl, inr,
}
use payment_gateway_sandbox.Prelude.Lists.{length}
use payment_gateway_sandbox.Prelude.Bytes.{Bytes, eq_bytes, eq_bytes_refl}
use payment_gateway_sandbox.Api.Auth.Scopes.{ScopeSet}

pub record AuthCtx : Type 0 where
  pub merchant_id : ℕ
  pub key_id : ℕ
  pub scopes : ScopeSet

pub data Outcome : Type 0 where
  resolved : AuthCtx → Outcome
  rejected : Outcome

pub record Entry : Type 0 where
  pub hash : Bytes
  pub outcome : Outcome
  pub expires_at : ℕ

pub record AuthCache : Type 0 where
  pub ttl : ℕ
  pub capacity : ℕ
  pub touch_interval : ℕ
  pub entries : List Entry
  pub touches : List (ℕ × ℕ)

-- `AuthCache::with_settings`
abbrev pub with_settings : ℕ → ℕ → ℕ → AuthCache
with_settings ttl capacity touch_interval = record {
  ttl = ttl;
  capacity = capacity;
  touch_interval = touch_interval;
  entries = [];
  touches = [];
}

-- `AuthCache::new`, in milliseconds
abbrev pub new_cache : AuthCache
new_cache = with_settings 5000 4096 60000

-- `AuthCache::disabled`
abbrev pub disabled : AuthCache
disabled = with_settings 0 0 0

abbrev pub is_enabled : AuthCache → Bool
is_enabled c = not (c.ttl == 0) && ltb 0 c.capacity

unfoldable pub find_entry : Bytes → List Entry → Option Entry
find_entry hash [] = none
find_entry hash (e ∷ es) = if eq_bytes e.hash hash then some e else find_entry hash es

abbrev pub live_outcome : ℕ → Option Entry → Option Outcome
live_outcome now none = none
live_outcome now (some e) = if ltb now e.expires_at then some e.outcome else none

-- `AuthCache::lookup`
unfoldable pub lookup : Bytes → ℕ → AuthCache → Option Outcome
unfolding find_entry
lookup hash now c = if is_enabled c then live_outcome now (find_entry hash c.entries) else none

-- `retain(|_, e| e.expires_at > now)`
unfoldable pub retain_live : ℕ → List Entry → List Entry
retain_live now [] = []
retain_live now (e ∷ es) =
    if ltb now e.expires_at then e ∷ retain_live now es else retain_live now es

unfoldable pub remove_entry : Bytes → List Entry → List Entry
remove_entry hash [] = []
remove_entry hash (e ∷ es) =
    if eq_bytes e.hash hash then remove_entry hash es else e ∷ remove_entry hash es

abbrev pub cleared_if_full : ℕ → List Entry → List Entry
cleared_if_full capacity es = if leb capacity (length es) then [] else es

-- the sweep of a full map
unfoldable pub make_room : ℕ → ℕ → List Entry → List Entry
unfolding retain_live
make_room capacity now es =
    if leb capacity (length es) then cleared_if_full capacity (retain_live now es) else es

-- `AuthCache::store`
unfoldable pub store : Bytes → Outcome → ℕ → AuthCache → AuthCache
unfolding make_room remove_entry
store hash outcome now c =
    if is_enabled c
    then record c {
      entries =
          record { hash = hash; outcome = outcome; expires_at = now + c.ttl }
          ∷ remove_entry hash (make_room c.capacity now c.entries);
    }
    else c

abbrev pub is_of_key : ℕ → Outcome → Bool
is_of_key key rejected = false
is_of_key key (resolved ctx) = ctx.key_id == key

unfoldable pub drop_key : ℕ → List Entry → List Entry
drop_key key [] = []
drop_key key (e ∷ es) = if is_of_key key e.outcome then drop_key key es else e ∷ drop_key key es

unfoldable pub last_touch : ℕ → List (ℕ × ℕ) → Option ℕ
last_touch key [] = none
last_touch key ((k, at) ∷ ts) = if k == key then some at else last_touch key ts

unfoldable pub remove_touch : ℕ → List (ℕ × ℕ) → List (ℕ × ℕ)
remove_touch key [] = []
remove_touch key ((k, at) ∷ ts) =
    if k == key then remove_touch key ts else (k, at) ∷ remove_touch key ts

-- `AuthCache::invalidate_key`
unfoldable pub invalidate_key : ℕ → AuthCache → AuthCache
unfolding drop_key remove_touch
invalidate_key key c = record c {
  entries = drop_key key c.entries;
  touches = remove_touch key c.touches;
}

-- `AuthCache::invalidate_all`
unfoldable pub invalidate_all : AuthCache → AuthCache
invalidate_all c = record c { entries = []; touches = [] }

abbrev pub is_recent : ℕ → ℕ → Option ℕ → Bool
is_recent interval now none = false
is_recent interval now (some last) = ltb (now - last) interval

unfoldable pub retain_recent : ℕ → ℕ → List (ℕ × ℕ) → List (ℕ × ℕ)
retain_recent interval now [] = []
retain_recent interval now ((k, at) ∷ ts) =
    if ltb (now - at) interval
    then (k, at) ∷ retain_recent interval now ts
    else retain_recent interval now ts

abbrev at_least_one : ℕ → ℕ
at_least_one n = if ltb n 1 then 1 else n

-- `AuthCache::should_touch`
unfoldable pub should_touch : ℕ → ℕ → AuthCache → Bool × AuthCache
unfolding last_touch retain_recent remove_touch
should_touch key now c =
    if c.touch_interval == 0
    then (true, c)
    else if is_recent c.touch_interval now (last_touch key c.touches)
    then (false, c)
    else (
      true,
      record c {
        touches =
            (key, now)
            ∷ remove_touch key (
                if leb (at_least_one c.capacity) (length c.touches)
                then retain_recent c.touch_interval now c.touches
                else c.touches);
      },
    )

remove_entry-length : (hash : Bytes) (es : List Entry) → length (remove_entry hash es) ≤ length es
unfolding remove_entry
remove_entry-length hash [] = omega arith
remove_entry-length hash (e ∷ es) = ground (arith, remove_entry-length hash es)

-- With room for one entry at least, the map never outgrows its capacity.
pub store-capacity :
    (hash : Bytes) (outcome : Outcome) (now : ℕ) (c : AuthCache)
    → length c.entries ≤ c.capacity
    → length (store hash outcome now c).entries ≤ c.capacity
unfolding store make_room
store-capacity hash outcome now c h =
    ground (arith, remove_entry-length hash (make_room c.capacity now c.entries))

-- What was stored is found until its time is over, and from then on nothing is.
pub lookup-store :
    (hash : Bytes) (outcome : Outcome) (now later : ℕ) (c : AuthCache)
    → is_enabled c ≡ true
    → lookup hash later (store hash outcome now c)
      ≡ (if ltb later (now + c.ttl) then some outcome else none)
unfolding lookup store find_entry
lookup-store hash outcome now later c h = ground (arith, eq_bytes_refl hash)

drop_key-find_entry :
    (key : ℕ) (hash : Bytes) (es : List Entry) (e : Entry)
    → find_entry hash (drop_key key es) ≡ some e
    → is_of_key key e.outcome ≡ false
unfolding find_entry drop_key
drop_key-find_entry key hash [] e h = cc
drop_key-find_entry key hash (x ∷ xs) e h = ground (arith, drop_key-find_entry key hash xs e)

-- After a key is invalidated no hash is found to be of that key.
pub invalidate_key-lookup :
    (key : ℕ) (hash : Bytes) (now : ℕ) (c : AuthCache) (ctx : AuthCtx)
    → lookup hash now (invalidate_key key c) ≡ some (resolved ctx)
    → ctx.key_id ≢ key
unfolding lookup invalidate_key
invalidate_key-lookup key hash now c ctx h =
    elim (Option-cases (find_entry hash (drop_key key c.entries))) [
      | inl n ↦ ground arith
      | inr (e, f) ↦ ground (arith, drop_key-find_entry key hash c.entries e f)
    ]

-- The use of a key is written down at most once within the interval.
pub should_touch_once :
    (key now later : ℕ) (c : AuthCache)
    → c.touch_interval ≢ 0
    → later < now + c.touch_interval
    → (should_touch key now c).0 ≡ true
    → (should_touch key later (should_touch key now c).1).0 ≡ false
unfolding should_touch last_touch
should_touch_once key now later c h lt t = ground arith
