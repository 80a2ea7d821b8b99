-- ===== src/Store/Deliveries.antt =====
-- The log of webhook deliveries (crates/store/src/webhook_delivery.rs).
use payment_gateway_sandbox.Prelude.{
  ℕ, String, Bool, true, Option, none, some, List, [], ◌∷◌, ◌==◌, leb, if◌then◌else◌,
}
use payment_gateway_sandbox.Prelude.Bytes.{lacks}
use payment_gateway_sandbox.Prelude.Text.{characters}
use payment_gateway_sandbox.Prelude.Result.{Result, ok, err, ok_or}
use payment_gateway_sandbox.Store.Error.{StoreError, database, row_not_found}
use payment_gateway_sandbox.Store.Rows.{find_row, update_rows, order_by}

pub data DeliveryStatus : Type 0 where
  pending delivered failed dead : DeliveryStatus

pub record WebhookDelivery : Type 0 where
  pub id : ℕ
  pub event_id : ℕ
  pub endpoint_id : ℕ
  pub attempt : ℕ
  pub status : DeliveryStatus
  pub response_status : Option ℕ
  pub response_body : Option String
  pub duration_ms : Option ℕ
  pub next_retry_at : Option ℕ

abbrev pub delivery_id_of : WebhookDelivery → ℕ
delivery_id_of d = d.id

-- The row that `insert_pending` writes.
unfoldable pub pending_row : ℕ → ℕ → ℕ → ℕ → WebhookDelivery
pending_row id event endpoint now = record {
  id = id;
  event_id = event;
  endpoint_id = endpoint;
  attempt = 1;
  status = pending;
  response_status = none;
  response_body = none;
  duration_ms = none;
  next_retry_at = some now;
}

abbrev pub attempted :
    DeliveryStatus → Option ℕ → Option String → ℕ → Option ℕ → ℕ → WebhookDelivery → WebhookDelivery
attempted status response_status response_body duration_ms next_retry_at attempt d = record d {
  status = status;
  response_status = response_status;
  response_body = response_body;
  duration_ms = some duration_ms;
  next_retry_at = next_retry_at;
  attempt = attempt;
}

-- A TEXT column refuses a text with the NUL character in it.
abbrev pub is_storable : Option String → Bool
is_storable none = true
is_storable (some text) = lacks 0 (characters text)

-- The statement of `record_attempt`, whose only text is the body of the answer. Its CHECK holds in any case: a row
-- starts with attempt 1, and no statement lowers the attempt.
unfoldable pub record_attempt :
    ℕ
    → DeliveryStatus
    → Option ℕ
    → Option String
    → ℕ
    → Option ℕ
    → ℕ
    → List WebhookDelivery
    → Result (List WebhookDelivery) StoreError
unfolding update_rows
record_attempt id status response_status response_body duration_ms next_retry_at attempt rows =
    if is_storable response_body
    then ok (
        update_rows delivery_id_of id
          (attempted status response_status response_body duration_ms next_retry_at attempt) rows)
    else err database

-- `find_by_id`
unfoldable pub find_delivery : ℕ → List WebhookDelivery → Result WebhookDelivery StoreError
unfolding find_row
find_delivery id rows = ok_or (find_row delivery_id_of id rows) (row_not_found "webhook_delivery")

unfoldable pub deliveries_of : ℕ → List WebhookDelivery → List WebhookDelivery
deliveries_of event [] = []
deliveries_of event (d ∷ ds) =
    if d.event_id == event then d ∷ deliveries_of event ds else deliveries_of event ds

-- `list_for_event`, by the number of the attempt
unfoldable pub list_for_event : ℕ → List WebhookDelivery → List WebhookDelivery
unfolding deliveries_of
list_for_event event rows = order_by (λ a b. leb a.attempt b.attempt) (deliveries_of event rows)
