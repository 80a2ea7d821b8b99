-- ===== src/Api/Pagination/Walk.antt =====
-- A client that follows the cursors until there is none: it comes to an end, and has every row once.
use payment_gateway_sandbox.Prelude.{
  ℕ, zero, suc, ◌+◌, ◌≡◌, ◌≤◌, ◌<◌, refl, sym, ◌∙◌, arith, Bool-cases, inl, inr, Option, none, some,
  List, [], ◌∷◌, ◌++◌, ltb, if◌then◌else◌,
}
use mathlib.Core.Path.{subst}
use payment_gateway_sandbox.Prelude.Int.{pos}
use payment_gateway_sandbox.Prelude.Lists.{length, All}
use payment_gateway_sandbox.Prelude.Bytes.{Bytes}
use payment_gateway_sandbox.Prelude.Result.{Result, ok, err}
use payment_gateway_sandbox.Domain.Card.{drop}
use payment_gateway_sandbox.Store.Listing.{take, older, older_than}
use payment_gateway_sandbox.Api.Error.{ApiError}
use payment_gateway_sandbox.Api.Pagination.{Page, finish, last, resolve_before, cursor_of}

module _ {A : Type 0} (page_at : Option Bytes → Result (Page A) ApiError) where
  -- The next rows behind those of a page.
  abbrev behind : List A → Option (Result (List A) ApiError) → Option (Result (List A) ApiError)
  behind rows none = none
  behind rows (some (err e)) = some (err e)
  behind rows (some (ok more)) = some (ok (rows ++ more))

  -- "Keep going while `next_before` is non-null", for a number of pages; `none` when there are more.
  abbrev go_on :
      Page A
      → (Bytes → Option (Result (List A) ApiError))
      → Option Bytes
      → Option (Result (List A) ApiError)
  go_on page next none = some (ok page.rows)
  go_on page next (some cursor) = behind page.rows (next cursor)

  abbrev after_page :
      Result (Page A) ApiError
      → (Bytes → Option (Result (List A) ApiError))
      → Option (Result (List A) ApiError)
  after_page (err e) next = some (err e)
  after_page (ok page) next = go_on page next page.next_before

  unfoldable pub walk : ℕ → Option Bytes → Option (Result (List A) ApiError)
  walk zero cursor = none
  walk (suc fuel) cursor = after_page (page_at cursor) (λ c. walk fuel (some c))

module _ {A : Type 0} (time : A → ℕ) where
  -- Rows of strictly falling times.
  abbrev pub Falling : List A → Type 0
  Falling [] = Unit
  Falling (x ∷ xs) = All (λ y. time y < time x) xs × Falling xs

  older_than_id : (t : ℕ) (xs : List A) → All (λ y. time y < t) xs → older_than time t xs ≡ xs
  unfolding older_than
  older_than_id t [] h = refl
  older_than_id t (x ∷ xs) h = ground (arith, older_than_id t xs h.1, h)

  older_than-older_than :
      (t t' : ℕ) (xs : List A)
      → t' ≤ t
      → older_than time t' (older_than time t xs) ≡ older_than time t' xs
  unfolding older_than
  older_than-older_than t t' [] h = refl
  older_than-older_than t t' (x ∷ xs) h = ground (arith, older_than-older_than t t' xs h)

  last-All :
      (P : A → Type 0) (n : ℕ) (xs : List A) (x : A) → All P xs → last (take n xs) ≡ some x → P x
  unfolding last take
  last-All P zero xs x h e = cc
  last-All P (suc n) [] x h e = cc
  last-All P (suc zero) (y ∷ ys) x h e = let same : y ≡ x = cc in subst P same h.0
  last-All P (suc (suc n)) (y ∷ []) x h e = let same : y ≡ x = cc in subst P same h.0
  last-All P (suc (suc n)) (y ∷ z ∷ zs) x h e = last-All P (suc n) (z ∷ zs) x h.1 e

  older_than-last :
      (n : ℕ) (xs : List A) (x : A)
      → Falling xs
      → last (take n xs) ≡ some x
      → older_than time (time x) xs ≡ drop n xs
  unfolding last take older_than
  older_than-last zero xs x h e = cc
  older_than-last (suc n) [] x h e = cc
  older_than-last (suc zero) (y ∷ ys) x h e =
      let same : y ≡ x = cc in
      subst (λ (w : A). older_than time (time w) (y ∷ ys) ≡ ys) same
        (ground (arith, older_than_id (time y) ys h.0))
  older_than-last (suc (suc n)) (y ∷ []) x h e =
      let same : y ≡ x = cc in
      subst (λ (w : A). older_than time (time w) (y ∷ []) ≡ []) same (ground arith)
  older_than-last (suc (suc n)) (y ∷ z ∷ zs) x h e = ground (
    arith,
    last-All (λ (w : A). time w < time y) (suc n) (z ∷ zs) x h.0 e,
    older_than-last (suc n) (z ∷ zs) x h.1 e,
  )

  Falling-drop : (n : ℕ) (xs : List A) → Falling xs → Falling (drop n xs)
  Falling-drop zero xs h = h
  Falling-drop (suc n) [] h = h
  Falling-drop (suc n) (x ∷ xs) h = Falling-drop n xs h.1

  older_than-All : (t : ℕ) (xs : List A) → All (λ y. time y < t) (older_than time t xs)
  unfolding older_than
  older_than-All t [] = tt
  older_than-All t (x ∷ xs) = elim (Bool-cases (ltb (time x) t)) [
    | inl e ↦ rw e (ground arith, older_than-All t xs)
    | inr e ↦ rw e (older_than-All t xs)
  ]

  -- A cursor within a page is older than the page's own.
  older_than-older :
      (before : Option ℕ) (n : ℕ) (xs : List A) (x : A)
      → last (take n (older time before xs)) ≡ some x
      → older_than time (time x) xs ≡ older_than time (time x) (older time before xs)
  older_than-older none n xs x h = refl
  older_than-older (some t) n xs x h =
      let less : time x < t =
        last-All (λ (w : A). time w < t) n (older_than time t xs) x (older_than-All t xs) h in
      sym (older_than-older_than t (time x) xs (omega arith))

module _ {A : Type 0} where
  take-append-drop : (n : ℕ) (xs : List A) → take n xs ++ drop n xs ≡ xs
  unfolding take
  take-append-drop zero xs = refl
  take-append-drop (suc n) [] = refl
  take-append-drop (suc n) (x ∷ xs) = rw (take-append-drop n xs) refl

  take-take : (n : ℕ) (xs : List A) → take n (take (suc n) xs) ≡ take n xs
  unfolding take
  take-take zero xs = refl
  take-take (suc n) [] = refl
  take-take (suc n) (x ∷ xs) = rw (take-take n xs) refl

  length-take-suc : (n : ℕ) (xs : List A) → ltb n (length (take (suc n) xs)) ≡ ltb n (length xs)
  unfolding take
  length-take-suc zero [] = refl
  length-take-suc zero (x ∷ xs) = ground arith
  length-take-suc (suc n) [] = refl
  length-take-suc (suc n) (x ∷ xs) = ground (arith, length-take-suc n xs)

  take-over : (n : ℕ) (xs : List A) → length xs ≤ n → take n xs ≡ xs
  unfolding take
  take-over zero [] h = refl
  take-over zero (x ∷ xs) h = absurd (omega arith)
  take-over (suc n) [] h = refl
  take-over (suc n) (x ∷ xs) h = rw (take-over n xs (omega arith)) refl

  length-drop : (n : ℕ) (xs : List A) → n ≤ length xs → length (drop n xs) + n ≡ length xs
  length-drop zero xs h = omega arith
  length-drop (suc n) [] h = absurd (omega arith)
  length-drop (suc n) (x ∷ xs) h = omega (arith, length-drop n xs)

  last-take : (n : ℕ) (xs : List A) → 1 ≤ n → 1 ≤ length xs → (x : A) × (last (take n xs) ≡ some x)
  unfolding last take
  last-take zero xs h k = absurd (omega arith)
  last-take (suc n) [] h k = absurd (omega arith)
  last-take (suc zero) (x ∷ xs) h k = (x, refl)
  last-take (suc (suc n)) (x ∷ []) h k = (x, refl)
  last-take (suc (suc n)) (x ∷ y ∷ ys) h k = last-take (suc n) (y ∷ ys) (omega arith) (omega arith)

module _ {A : Type 0} (format_time : ℕ → Option Bytes) (time : A → ℕ) (n : ℕ) (rows : List A) where
  -- The page that begins at a cursor.
  abbrev pub page_of : Option ℕ → Page A
  page_of before =
      finish format_time time (record { limit = pos n; before = before })
        (take (suc n) (older time before rows))

  page_of-rows : (before : Option ℕ) → (page_of before).rows ≡ take n (older time before rows)
  unfolding finish
  page_of-rows before = take-take n (older time before rows)

  page_of-next :
      (before : Option ℕ)
      → (page_of before).next_before ≡ (
          if ltb n (length (older time before rows))
          then cursor_of format_time time (last (take n (older time before rows)))
          else none)
  unfolding finish
  page_of-next before =
      rw (length-take-suc n (older time before rows), take-take n (older time before rows)) refl

module _ {A : Type 0} (parse_time : Bytes → Option ℕ) (format_time : ℕ → Option Bytes)
    (time : A → ℕ) (n : ℕ) (rows : List A) (page_at : Option Bytes → Result (Page A) ApiError) where
  pub walk_from :
      (fuel : ℕ) (text : Option Bytes) (before : Option ℕ)
      → 1 ≤ n
      → ((t : ℕ) → (s : Bytes) × (format_time t ≡ some s) × (parse_time s ≡ some t))
      → ((text : Option Bytes) (before : Option ℕ)
          → resolve_before parse_time text ≡ ok before
          → page_at text ≡ ok (page_of format_time time n rows before))
      → resolve_before parse_time text ≡ ok before
      → Falling time (older time before rows)
      → length (older time before rows) < fuel
      → walk page_at fuel text ≡ some (ok (older time before rows))
  unfolding walk resolve_before
  walk_from zero text before n1 dates pages r f lt = absurd (omega arith)
  walk_from (suc fuel) text before n1 dates pages r f lt =
      elim (Bool-cases (ltb n (length (older time before rows)))) [
        | inl e ↦
            let all = older time before rows in
            let (x, l) = last-take n all n1 (ground arith) in
            let (s, p, q) = dates (time x) in
            let more : older time (some (time x)) rows ≡ drop n all =
              older_than-older time before n rows x l ∙ older_than-last time n all x f l in
            let rest =
              walk_from fuel (some s) (some (time x)) n1 dates pages (rw q refl)
                (rw more (Falling-drop time n all f))
                (rw more (ground (arith, length-drop n all))) in
            rw
              (
                pages text before r,
                page_of-next format_time time n rows before,
                e,
                l,
                p,
                page_of-rows format_time time n rows before,
              )
              (rw (rest, more, take-append-drop n all) refl)
        | inr e ↦
            rw
              (
                pages text before r,
                page_of-next format_time time n rows before,
                e,
                page_of-rows format_time time n rows before,
              )
              (rw (take-over n (older time before rows) (ground arith)) refl)
      ]
