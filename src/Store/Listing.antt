-- ===== src/Store/Listing.antt =====
-- The listings of a merchant's rows, newest first (`list_for_merchant` in crates/store/src/order.rs and
-- event.rs): `WHERE created_at < $2`, where a time is given, `ORDER BY created_at DESC` and `LIMIT`.
use payment_gateway_sandbox.Prelude.{
  ℕ, zero, suc, ◌≡◌, refl, arith, Bool-cases, inl, inr, Option, none, some, List, [], ◌∷◌, ltb, leb,
  ◌==◌, if◌then◌else◌,
}
use payment_gateway_sandbox.Prelude.Int.{ℤ, pos, negsuc}
use payment_gateway_sandbox.Domain.Order.{Order}
use payment_gateway_sandbox.Store.Db.{Db, Event}
use payment_gateway_sandbox.Store.Rows.{order_by, insert_ordered}

unfoldable pub take {ℓ} : {A : Type ℓ} → ℕ → List A → List A
take zero xs = []
take (suc n) [] = []
take (suc n) (x ∷ xs) = x ∷ take n xs

-- A limit is at least one where it is used.
abbrev pub limit_of : ℤ → ℕ
limit_of (pos n) = n
limit_of (negsuc n) = 0

module _ {A : Type 0} (time : A → ℕ) where
  unfoldable pub older_than : ℕ → List A → List A
  older_than t [] = []
  older_than t (x ∷ xs) = if ltb (time x) t then x ∷ older_than t xs else older_than t xs

  abbrev pub older : Option ℕ → List A → List A
  older none xs = xs
  older (some t) xs = older_than t xs

  unfoldable pub newest_first : List A → List A
  newest_first xs = order_by (λ a b. leb (time b) (time a)) xs

  unfoldable pub listing : Option ℕ → ℤ → List A → List A
  unfolding older_than newest_first take
  listing before limit rows = take (limit_of limit) (newest_first (older before rows))

  insert_ordered-older_than :
      (t : ℕ) (r : A) (xs : List A)
      → older_than t (insert_ordered (λ a b. leb (time b) (time a)) r xs) ≡ (
          if ltb (time r) t
          then insert_ordered (λ a b. leb (time b) (time a)) r (older_than t xs)
          else older_than t xs)
  unfolding older_than insert_ordered
  insert_ordered-older_than t r [] = refl
  insert_ordered-older_than t r (x ∷ xs) = ground (arith, insert_ordered-older_than t r xs)

  newest_first-older_than :
      (t : ℕ) (xs : List A) → newest_first (older_than t xs) ≡ older_than t (newest_first xs)
  unfolding older_than newest_first order_by
  newest_first-older_than t [] = refl
  newest_first-older_than t (x ∷ xs) =
      let step = insert_ordered-older_than t x (newest_first xs) in
      elim (Bool-cases (ltb (time x) t)) [
        | inl e ↦ rw (e, newest_first-older_than t xs, step, e) refl
        | inr e ↦ rw (e, newest_first-older_than t xs, step, e) refl
      ]

  -- Selecting by time and putting in order can change places.
  pub newest_first-older :
      (before : Option ℕ) (xs : List A)
      → newest_first (older before xs) ≡ older before (newest_first xs)
  newest_first-older none xs = refl
  newest_first-older (some t) xs = newest_first-older_than t xs

unfoldable pub orders_of : ℕ → List Order → List Order
orders_of merchant [] = []
orders_of merchant (o ∷ os) =
    if o.merchant_id == merchant then o ∷ orders_of merchant os else orders_of merchant os

abbrev pub order_time : Order → ℕ
order_time o = o.created_at

-- `store::order::list_for_merchant`
unfoldable pub list_orders : ℕ → Option ℕ → ℤ → Db → List Order
unfolding orders_of listing
list_orders merchant before limit db =
    listing order_time before limit (orders_of merchant db.orders)

unfoldable pub events_of : ℕ → List Event → List Event
events_of merchant [] = []
events_of merchant (e ∷ es) =
    if e.merchant_id == merchant then e ∷ events_of merchant es else events_of merchant es

abbrev pub event_time : Event → ℕ
event_time e = e.created_at

-- `store::event::list_for_merchant`
unfoldable pub list_events : ℕ → Option ℕ → ℤ → Db → List Event
unfolding events_of listing
list_events merchant before limit db =
    listing event_time before limit (events_of merchant db.events)
