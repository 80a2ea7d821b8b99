-- ===== src/Store/Idempotency/Rows.antt =====
-- What each statement does to the row of a key, and that it leaves every other key alone.
use payment_gateway_sandbox.Prelude.{
  ℕ, ◌≡◌, refl, arith, Bool, true, false, ◌&&◌, ◌||◌, none, some, List, [], ◌∷◌, ◌++◌, ◌==◌,
}
use payment_gateway_sandbox.Prelude.Int.{ℤ}
use payment_gateway_sandbox.Prelude.Bytes.{Bytes, eq_bytes, eq_bytes_refl, eq_bytes_sound}
use payment_gateway_sandbox.Store.Idempotency.{
  KeyRow, in_progress, is_row, find_key, complete, completed_row, release,
}

-- Whether a merchant's key, as a pair, is this one.
abbrev pub is_key : ℕ → Bytes → ℕ × Bytes → Bool
is_key m k (m', k') = m' == m && eq_bytes k' k

module _ {Json : Type 0} where
  pub find_key-append :
      (m : ℕ) (k : Bytes) (table : List (KeyRow Json)) (r : KeyRow Json)
      → find_key m k table ≡ none
      → is_row m k r ≡ true
      → find_key m k (table ++ r ∷ []) ≡ some r
  unfolding find_key
  find_key-append m k [] r h e = rw e refl
  find_key-append m k (x ∷ xs) r h e = ground (arith, find_key-append m k xs r)

  pub find_key-append_other :
      (m : ℕ) (k : Bytes) (table : List (KeyRow Json)) (r : KeyRow Json)
      → is_row m k r ≡ false
      → find_key m k (table ++ r ∷ []) ≡ find_key m k table
  unfolding find_key
  find_key-append_other m k [] r e = rw e refl
  find_key-append_other m k (x ∷ xs) r e = ground (arith, find_key-append_other m k xs r)

  pub find_key-complete :
      (m : ℕ) (k : Bytes) (status : ℤ) (body : Json) (table : List (KeyRow Json)) (r : KeyRow Json)
      → find_key m k table ≡ some r
      → find_key m k (complete m k status body table) ≡ some (completed_row status body r)
  unfolding find_key complete
  find_key-complete m k status body [] r h = cc
  find_key-complete m k status body (x ∷ xs) r h =
      ground (arith, find_key-complete m k status body xs r)

  pub find_key-release_in_progress :
      (m : ℕ) (k : Bytes) (table : List (KeyRow Json)) (r : KeyRow Json)
      → find_key m k table ≡ none
      → is_row m k r ≡ true
      → r.state ≡ in_progress
      → find_key m k (release m k (table ++ r ∷ [])) ≡ none
  unfolding find_key release
  find_key-release_in_progress m k [] r h e s = rw (e, s) refl
  find_key-release_in_progress m k (x ∷ xs) r h e s =
      ground (arith, find_key-release_in_progress m k xs r)

  -- Whether the table has a row for a key.
  unfoldable pub has_row : ℕ → Bytes → List (KeyRow Json) → Bool
  has_row m k [] = false
  has_row m k (r ∷ rs) = is_row m k r || has_row m k rs

  pub find_key-has_row :
      (m : ℕ) (k : Bytes) (table : List (KeyRow Json))
      → find_key m k table ≡ none
      → has_row m k table ≡ false
  unfolding find_key has_row
  find_key-has_row m k [] h = refl
  find_key-has_row m k (x ∷ xs) h = ground (arith, find_key-has_row m k xs)

  pub has_row-append :
      (m : ℕ) (k : Bytes) (table : List (KeyRow Json)) (r : KeyRow Json)
      → has_row m k (table ++ r ∷ []) ≡ (is_row m k r || has_row m k table)
  unfolding has_row
  has_row-append m k [] r = ground arith
  has_row-append m k (x ∷ xs) r = ground (arith, has_row-append m k xs r)

  pub has_row-complete :
      (m : ℕ) (k : Bytes) (m' : ℕ) (k' : Bytes) (status : ℤ) (body : Json)
      (table : List (KeyRow Json))
      → has_row m k (complete m' k' status body table) ≡ has_row m k table
  unfolding has_row complete
  has_row-complete m k m' k' status body [] = refl
  has_row-complete m k m' k' status body (x ∷ xs) =
      ground (arith, has_row-complete m k m' k' status body xs)

  -- A row stands for one key.
  is_row_only :
      (m : ℕ) (k : Bytes) (m' : ℕ) (k' : Bytes) (r : KeyRow Json)
      → is_row m k r ≡ true
      → is_row m' k' r ≡ true
      → is_key m k (m', k') ≡ true
  is_row_only m k m' k' r h h' =
      ground (arith, eq_bytes_sound r.key k, eq_bytes_sound r.key k', eq_bytes_refl k)

  pub has_row-release_other :
      (m : ℕ) (k : Bytes) (m' : ℕ) (k' : Bytes) (table : List (KeyRow Json))
      → is_key m k (m', k') ≡ false
      → has_row m k (release m' k' table) ≡ has_row m k table
  unfolding has_row release
  has_row-release_other m k m' k' [] h = refl
  has_row-release_other m k m' k' (x ∷ xs) h =
      ground (arith, has_row-release_other m k m' k' xs h, is_row_only m k m' k' x)
