-- ===== src/Api/Auth/Entries.antt =====
-- What holds of every entry of the cache stays so where entries are taken out.
use payment_gateway_sandbox.Prelude.{
  ℕ, ◌≡◌, arith, Bool, true, false, Bool-cases, some, List, [], ◌∷◌, ltb, leb, if◌then◌else◌, inl,
  inr,
}
use mathlib.Core.Path.{subst}
use payment_gateway_sandbox.Prelude.Lists.{All, length}
use payment_gateway_sandbox.Prelude.Bytes.{Bytes, eq_bytes, eq_bytes_sound}
use payment_gateway_sandbox.Api.Auth.Cache.{
  Entry, find_entry, retain_live, remove_entry, drop_key, make_room, is_of_key,
}

All-keep :
    (P : Entry → Type 0) (b : Bool) (e : Entry) (es : List Entry)
    → P e
    → All P es
    → All P (if b then e ∷ es else es)
All-keep P true e es p h = (p, h)
All-keep P false e es p h = h

All-drop :
    (P : Entry → Type 0) (b : Bool) (e : Entry) (es : List Entry)
    → P e
    → All P es
    → All P (if b then es else e ∷ es)
All-drop P true e es p h = h
All-drop P false e es p h = (p, h)

module _ (P : Entry → Type 0) where
  pub retain_live-All : (now : ℕ) (es : List Entry) → All P es → All P (retain_live now es)
  unfolding retain_live
  retain_live-All now [] h = h
  retain_live-All now (e ∷ es) h =
      All-keep P (ltb now e.expires_at) e (retain_live now es) h.0 (retain_live-All now es h.1)

  pub remove_entry-All : (hash : Bytes) (es : List Entry) → All P es → All P (remove_entry hash es)
  unfolding remove_entry
  remove_entry-All hash [] h = h
  remove_entry-All hash (e ∷ es) h =
      All-drop P (eq_bytes e.hash hash) e (remove_entry hash es) h.0 (remove_entry-All hash es h.1)

  pub drop_key-All : (key : ℕ) (es : List Entry) → All P es → All P (drop_key key es)
  unfolding drop_key
  drop_key-All key [] h = h
  drop_key-All key (e ∷ es) h =
      All-drop P (is_of_key key e.outcome) e (drop_key key es) h.0 (drop_key-All key es h.1)

  pub find_entry-All :
      (hash : Bytes) (es : List Entry) (e : Entry)
      → All P es
      → find_entry hash es ≡ some e
      → P e × (e.hash ≡ hash)
  unfolding find_entry
  find_entry-All hash [] e h f = cc
  find_entry-All hash (x ∷ xs) e h f = elim (Bool-cases (eq_bytes x.hash hash)) [
    | inl p ↦
        let same : x ≡ e = ground arith in
        (subst P same h.0, rw (← same) (eq_bytes_sound x.hash hash p))
    | inr p ↦ find_entry-All hash xs e h.1 (ground arith)
  ]

  pub make_room-All :
      (capacity now : ℕ) (es : List Entry) → All P es → All P (make_room capacity now es)
  unfolding make_room
  make_room-All capacity now es h = elim (Bool-cases (leb capacity (length es))) [
    | inl p ↦ elim (Bool-cases (leb capacity (length (retain_live now es)))) [
      | inl q ↦ rw (p, q) tt
      | inr q ↦ rw (p, q) (retain_live-All now es h)
    ]
    | inr p ↦ rw p h
  ]
