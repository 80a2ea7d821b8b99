-- ===== src/Webhooks/Mirror.antt =====
-- The delivery's row as a mirror of its job: what the merchant sees of the retries, and what the queue does.
use payment_gateway_sandbox.Prelude.{
  ℕ, zero, suc, Bool-cases, ◌+◌, ◌≡◌, ap, ◌∙◌, inl, inr, Option-cases, ◌⊎◌, ◌↔◌, ◌≤◌, ◌<◌, refl,
  arith, String, Bool, true, false, Option, none, some, if◌then◌else◌, ltb,
}
use payment_gateway_sandbox.Prelude.Lists.{get_elem?}
use payment_gateway_sandbox.Store.Db.{Db, Event, WebhookEndpoint}
use payment_gateway_sandbox.Store.Deliveries.{
  DeliveryStatus, WebhookDelivery, delivery_id_of, is_storable, record_attempt, attempted,
}
use payment_gateway_sandbox.Store.Job.{Job, Payload, delivery_payload, fail_and_reschedule}
use payment_gateway_sandbox.Store.Outbox.{is_active, deliver_webhook}
use payment_gateway_sandbox.Store.Rows.{find_row, find_row-update_rows}
use payment_gateway_sandbox.Queue.Scheduler
use payment_gateway_sandbox.Queue.Scheduler.{next_retry_at, ladder_gives_up, ladder_secs}
use payment_gateway_sandbox.Queue.Worker.{
  Handler, Handled, execute, run_handler, record_outcome, handler_of,
}
use payment_gateway_sandbox.Webhooks.Delivery.{SendOutcome, failed}
use payment_gateway_sandbox.Webhooks.Worker.{
  event_id_of, endpoint_id_of, mirrored, after_send, deliver, webhook_handlers,
}

-- A job that delivers a webhook, with the rows that it names.
pub record IsDelivery (j : Job) (db : Db) : Type 0 where
  pub event : Event
  pub endpoint : WebhookEndpoint
  pub delivery : WebhookDelivery
  pub kind : j.kind ≡ deliver_webhook
  pub payload : j.payload ≡ delivery_payload delivery.id event.id endpoint.id
  pub has_event : find_row event_id_of event.id db.events ≡ some event
  pub has_endpoint : find_row endpoint_id_of endpoint.id db.endpoints ≡ some endpoint
  pub has_delivery : find_row delivery_id_of delivery.id db.deliveries ≡ some delivery
  pub active : is_active endpoint ≡ true

deliver-delivery :
    (now : ℕ) (send : WebhookEndpoint → Event → SendOutcome) (j : Job) (db : Db)
    (h : IsDelivery j db)
    → deliver now send j.payload db ≡ after_send now h.delivery (send h.endpoint h.event) db
unfolding deliver
deliver-delivery now send j db h =
    ap (λ (p : Payload). deliver now send p db) h.payload
    ∙ rw (h.has_event, h.has_endpoint, h.has_delivery, h.active) refl

handler_of-deliver :
    (now : ℕ) (send : WebhookEndpoint → Event → SendOutcome) (kind : String)
    → kind ≡ deliver_webhook
    → handler_of kind (webhook_handlers now send) ≡ some (deliver now send)
unfolding handler_of
handler_of-deliver now send kind h = rw h refl

pub execute-delivery :
    (seen now : ℕ) (send : WebhookEndpoint → Event → SendOutcome) (j : Job) (db : Db)
    (h : IsDelivery j db)
    → let out = after_send seen h.delivery (send h.endpoint h.event) db in
      execute (webhook_handlers seen send) now j db ≡ record_outcome j now out.0 out.1
unfolding execute
execute-delivery seen now send j db h =
    ap (λ (o : Option Handler). run_handler now j o db) (handler_of-deliver seen send j.kind h.kind)
    ∙ ap (λ (out : Handled × Db). record_outcome j now out.0 out.1)
        (deliver-delivery seen send j db h)

-- What a failed sending writes down: the delivery shows the time and the attempt by its own count and by the
-- handler's reading of the clock, and the job is put off, or given up, by its own count and the worker's reading.
failed_delivery :
    (seen now : ℕ) (send : WebhookEndpoint → Event → SendOutcome) (j : Job) (db : Db)
    (h : IsDelivery j db) (status : Option ℕ) (body : Option String) (duration : ℕ) (error : String)
    → send h.endpoint h.event ≡ failed status body duration error
    → is_storable body ≡ true
    → let after = execute (webhook_handlers seen send) now j db in
      let next_retry = next_retry_at h.delivery.attempt seen in
      (find_row delivery_id_of h.delivery.id after.deliveries
        ≡ some (
            attempted
              (mirrored h.delivery.attempt next_retry).0
              status
              body
              duration
              next_retry
              (mirrored h.delivery.attempt next_retry).1
              h.delivery))
      × (after.jobs ≡ fail_and_reschedule j.id error (next_retry_at j.attempts now) now db.jobs)
unfolding after_send record_attempt record_outcome
failed_delivery seen now send j db h status body duration error e text =
    let d = h.delivery in
    let next_retry = next_retry_at d.attempt seen in
    let row = mirrored d.attempt next_retry in
    rw (execute-delivery seen now send j db h, e, text)
      (
        find_row-update_rows delivery_id_of d.id
            (attempted row.0 status body duration next_retry row.1) db.deliveries d refl
            h.has_delivery,
        refl,
      )

-- The status and the attempt while there are tries left, and after.
abbrev mark : Bool → ℕ → DeliveryStatus × ℕ
mark true n = (DeliveryStatus.failed, suc n)
mark false n = (DeliveryStatus.dead, n)

mark-status :
    (b : Bool) (n : ℕ) → (mark b n).0 ≡ (if b then DeliveryStatus.failed else DeliveryStatus.dead)
mark-status true n = refl
mark-status false n = refl

mark-attempt : (b : Bool) (n : ℕ) → (mark b n).1 ≡ (if b then suc n else n)
mark-attempt true n = refl
mark-attempt false n = refl

mirrored_lem : (n now : ℕ) → mirrored n (next_retry_at n now) ≡ mark (ltb n 7) n
mirrored_lem n now = elim (Option-cases (next_retry_at n now)) [
  | inl e ↦
      let over : ltb n 7 ≡ false = let k = (ladder_gives_up n now).0 e in ground arith in
      rw (e, over) refl
  | inr (t, e) ↦ elim (Bool-cases (ltb n 7)) [
    | inl under ↦ rw (e, under) (ap (λ (m : ℕ). (DeliveryStatus.failed, m)) (omega arith))
    | inr over ↦ let k : next_retry_at n now ≡ none = (ladder_gives_up n now).1 (ground arith) in cc
  ]
]

-- Each rung of the ladder is four minutes longer than the one before, or more.
ladder_grows :
    (n now gap : ℕ)
    → (1 ≤ n) × (n ≤ 6)
    → gap < 240
    → (t : ℕ) × (next_retry_at n (now + gap) ≡ some t)
      × ((next_retry_at (suc n) now ≡ none)
          ⊎ ((u : ℕ) × (next_retry_at (suc n) now ≡ some u) × (t < u)))
unfolding next_retry_at
ladder_grows zero now gap h k = absurd (omega arith)
ladder_grows (suc zero) now gap h k = (now + gap + 60, refl, inr (now + 300, refl, omega arith))
ladder_grows (suc (suc zero)) now gap h k =
    (now + gap + 300, refl, inr (now + 1800, refl, omega arith))
ladder_grows (suc (suc (suc zero))) now gap h k =
    (now + gap + 1800, refl, inr (now + 7200, refl, omega arith))
ladder_grows (suc (suc (suc (suc zero)))) now gap h k =
    (now + gap + 7200, refl, inr (now + 21600, refl, omega arith))
ladder_grows (suc (suc (suc (suc (suc zero))))) now gap h k =
    (now + gap + 21600, refl, inr (now + 86400, refl, omega arith))
ladder_grows (suc (suc (suc (suc (suc (suc zero)))))) now gap h k =
    (now + gap + 86400, refl, inl refl)
ladder_grows (suc (suc (suc (suc (suc (suc (suc n))))))) now gap h k = absurd (omega arith)

-- The ladder's time, read so much later.
abbrev pub later_by : ℕ → Option ℕ → Option ℕ
later_by gap none = none
later_by gap (some t) = some (t + gap)

after-later_by :
    (seen gap : ℕ) (o : Option ℕ)
    → Scheduler.after (seen + gap) o ≡ later_by gap (Scheduler.after seen o)
after-later_by seen gap none = refl
after-later_by seen gap (some s) = ap (λ (t : ℕ). some t) (omega arith)

next_retry_at-later_by :
    (n seen gap : ℕ) → next_retry_at n (seen + gap) ≡ later_by gap (next_retry_at n seen)
unfolding next_retry_at
next_retry_at-later_by zero seen gap = refl
next_retry_at-later_by (suc n) seen gap = after-later_by seen gap (get_elem? ladder_secs n)

-- A sending fails for a job whose count of attempts is the delivery's, with an answer that the log can hold. Then
-- the queue puts the job off to the time that the delivery shows, but for what has passed from the worker's reading
-- of the clock to the handler's, which follows it; the delivery is dead, as the job is, exactly when this was the
-- seventh attempt or a later one; and otherwise it counts the next attempt.
pub mirror_in_lockstep :
    (now gap : ℕ) (send : WebhookEndpoint → Event → SendOutcome) (j : Job) (db : Db)
    (h : IsDelivery j db) (status : Option ℕ) (body : Option String) (duration : ℕ) (error : String)
    → send h.endpoint h.event ≡ failed status body duration error
    → is_storable body ≡ true
    → h.delivery.attempt ≡ j.attempts
    → let after = execute (webhook_handlers (now + gap) send) now j db in
      (r : WebhookDelivery) × (find_row delivery_id_of h.delivery.id after.deliveries ≡ some r)
      × (real : Option ℕ) × (after.jobs ≡ fail_and_reschedule j.id error real now db.jobs)
      × (r.next_retry_at ≡ later_by gap real)
      × ((real ≡ none) ↔ (7 ≤ j.attempts))
      × (r.status ≡ (if ltb j.attempts 7 then DeliveryStatus.failed else DeliveryStatus.dead))
      × (r.attempt ≡ (if ltb j.attempts 7 then suc j.attempts else j.attempts))
mirror_in_lockstep now gap send j db h status body duration error e text same =
    let seen = now + gap in
    let (row, jobs) = failed_delivery seen now send j db h status body duration error e text in
    let next = next_retry_at h.delivery.attempt seen in
    let r =
      attempted (mirrored h.delivery.attempt next).0 status body duration next
        (mirrored h.delivery.attempt next).1 h.delivery in
    let marks = mirrored_lem h.delivery.attempt seen ∙ ap (λ (n : ℕ). mark (ltb n 7) n) same in
    (
      r,
      row,
      next_retry_at j.attempts now,
      jobs,
      ap (λ (n : ℕ). next_retry_at n seen) same ∙ next_retry_at-later_by j.attempts now gap,
      ladder_gives_up j.attempts now,
      ap (λ (x : DeliveryStatus × ℕ). x.0) marks ∙ mark-status (ltb j.attempts 7) j.attempts,
      ap (λ (x : DeliveryStatus × ℕ). x.1) marks ∙ mark-attempt (ltb j.attempts 7) j.attempts,
    )

-- A sending fails for a job that was reaped once, so that its count of attempts is one more than the
-- delivery's, which is 1 to 6, with an answer that the log can hold; the handler reads the clock less than four
-- minutes after the worker. Then the delivery shows a retry at some time, and the queue puts the job off to a later
-- one, or gives it up.
pub mirror_lags_after_reap :
    (now gap : ℕ) (send : WebhookEndpoint → Event → SendOutcome) (j : Job) (db : Db)
    (h : IsDelivery j db) (status : Option ℕ) (body : Option String) (duration : ℕ) (error : String)
    → send h.endpoint h.event ≡ failed status body duration error
    → is_storable body ≡ true
    → j.attempts ≡ suc h.delivery.attempt
    → (1 ≤ h.delivery.attempt) × (h.delivery.attempt ≤ 6)
    → gap < 240
    → let after = execute (webhook_handlers (now + gap) send) now j db in
      (r : WebhookDelivery) × (find_row delivery_id_of h.delivery.id after.deliveries ≡ some r)
      × (r.status ≡ DeliveryStatus.failed)
      × (shown : ℕ) × (r.next_retry_at ≡ some shown)
      × (real : Option ℕ) × (after.jobs ≡ fail_and_reschedule j.id error real now db.jobs)
      × ((real ≡ none) ⊎ ((t : ℕ) × (real ≡ some t) × (shown < t)))
mirror_lags_after_reap now gap send j db h status body duration error e text same range near =
    let (row, jobs) =
      failed_delivery (now + gap) now send j db h status body duration error e text in
    let n = h.delivery.attempt in
    let (t, shown, later) = ladder_grows n now gap range near in
    let r = attempted DeliveryStatus.failed status body duration (some t) (n + 1) h.delivery in
    (
      r,
      row
          ∙ ap
              (λ (o : Option ℕ).
                some
                  (attempted (mirrored n o).0 status body duration o (mirrored n o).1 h.delivery))
              shown,
      refl,
      t,
      refl,
      next_retry_at (suc n) now,
      rw (← same) jobs,
      later,
    )
