-- ===== src/Store/Rows.antt =====
-- `SELECT … WHERE id = $1` and `UPDATE … WHERE id = $1` over a list of rows.
use payment_gateway_sandbox.Prelude.{
  ℕ, ◌≡◌, ◌≢◌, refl, arith, Bool, true, false, Option, none, some, List, [], ◌∷◌, ◌++◌, ◌==◌,
  if◌then◌else◌,
}

-- `ORDER BY`: `first a b` says whether `a` may stand before `b`; equal rows stay in the table's order.
module _ {A : Type 0} (first : A → A → Bool) where
  unfoldable pub insert_ordered : A → List A → List A
  insert_ordered r [] = r ∷ []
  insert_ordered r (s ∷ rs) = if first r s then r ∷ s ∷ rs else s ∷ insert_ordered r rs

  unfoldable pub order_by : List A → List A
  unfolding insert_ordered
  order_by [] = []
  order_by (r ∷ rs) = insert_ordered r (order_by rs)

module _ {A : Type 0} (id_of : A → ℕ) where
  unfoldable pub find_row : ℕ → List A → Option A
  find_row i [] = none
  find_row i (r ∷ rs) = if id_of r == i then some r else find_row i rs

  unfoldable pub update_rows : ℕ → (A → A) → List A → List A
  update_rows i f [] = []
  update_rows i f (r ∷ rs) = (if id_of r == i then f r else r) ∷ update_rows i f rs

  -- Whether the rows of an id all pass a test: the CHECKs of an updated row.
  unfoldable pub all_rows : ℕ → (A → Bool) → List A → Bool
  all_rows i p [] = true
  all_rows i p (r ∷ rs) =
      if id_of r == i then (if p r then all_rows i p rs else false) else all_rows i p rs

  abbrev pub is_found : Option A → Bool
  is_found none = false
  is_found (some _) = true

  pub find_row-id : (i : ℕ) (rs : List A) (r : A) → find_row i rs ≡ some r → id_of r ≡ i
  unfolding find_row
  find_row-id i [] r h = cc
  find_row-id i (x ∷ rs) r h = ground (arith, find_row-id i rs r)

  pub find_row-update_rows :
      (i : ℕ) (f : A → A) (rs : List A) (r : A)
      → id_of (f r) ≡ i
      → find_row i rs ≡ some r
      → find_row i (update_rows i f rs) ≡ some (f r)
  unfolding find_row update_rows
  find_row-update_rows i f [] r keep h = cc
  find_row-update_rows i f (x ∷ rs) r keep h = ground (arith, find_row-update_rows i f rs r keep)

  pub find_row-update_rows_ne :
      (i j : ℕ) (f : A → A) (rs : List A)
      → ((r : A) → id_of (f r) ≡ id_of r)
      → i ≢ j
      → find_row j (update_rows i f rs) ≡ find_row j rs
  unfolding find_row update_rows
  find_row-update_rows_ne i j f [] keep ne = refl
  find_row-update_rows_ne i j f (x ∷ rs) keep ne =
      ground (arith, keep x, find_row-update_rows_ne i j f rs keep ne)

  pub find_row-append_new :
      (i : ℕ) (rs : List A) (r : A)
      → find_row i rs ≡ none
      → id_of r ≡ i
      → find_row i (rs ++ r ∷ []) ≡ some r
  unfolding find_row
  find_row-append_new i [] r h e = ground arith
  find_row-append_new i (x ∷ rs) r h e = ground (arith, find_row-append_new i rs r)

  pub find_row-append_ne :
      (i : ℕ) (rs : List A) (r : A) → id_of r ≢ i → find_row i (rs ++ r ∷ []) ≡ find_row i rs
  unfolding find_row
  find_row-append_ne i [] r e = ground arith
  find_row-append_ne i (x ∷ rs) r e = ground (arith, find_row-append_ne i rs r e)
