-- ===== src/Queue/Scheduler.antt =====
-- Retry scheduling (crates/queue/scheduler.rs).
use payment_gateway_sandbox.Prelude.{
  ℕ, zero, suc, ◌+◌, ◌≤◌, ◌≡◌, ◌↔◌, refl, arith, Option, none, some, List, [], ◌∷◌,
}
use payment_gateway_sandbox.Prelude.Lists.{get_elem?, get_elem?-none, get_elem?-over}

-- `LADDER_SECS`
abbrev pub ladder_secs : List ℕ
ladder_secs = 60 ∷ 300 ∷ 1800 ∷ 7200 ∷ 21600 ∷ 86400 ∷ []

abbrev pub after : ℕ → Option ℕ → Option ℕ
after now none = none
after now (some secs) = some (now + secs)

-- `next_retry_at`
unfoldable pub next_retry_at : ℕ → ℕ → Option ℕ
next_retry_at zero now = some now
next_retry_at (suc n) now = after now (get_elem? ladder_secs n)

after-none : (now : ℕ) (o : Option ℕ) → after now o ≡ none → o ≡ none
after-none now none h = refl
after-none now (some s) h = cc

-- There is no retry after seven attempts or more, and there is one after fewer.
pub ladder_gives_up : (attempts now : ℕ) → (next_retry_at attempts now ≡ none) ↔ (7 ≤ attempts)
unfolding next_retry_at
ladder_gives_up zero now = (λ h. cc, λ h. ground arith)
ladder_gives_up (suc n) now = (
  λ h. omega (arith, get_elem?-none ladder_secs n (after-none now _ h)),
  λ h. rw (get_elem?-over ladder_secs n (omega arith)) refl,
)
