-- ===== src/Tests/Edges.antt =====
-- The theorems on what comes in at the edge of the API, at concrete texts.
use payment_gateway_sandbox.Prelude.{◌≡◌, refl, true, Option, none, some, [], ◌∷◌, ◌++◌}
use payment_gateway_sandbox.Prelude.Bytes.{Bytes, all_bytes}
use payment_gateway_sandbox.Prelude.Text.{characters}
use payment_gateway_sandbox.Api.Extract.{framing, is_plausible, json_data_error, reject_json}
use payment_gateway_sandbox.Api.RequestId.{
  is_hex, is_acceptable, request_id, response_id, request_id_travels,
}
use payment_gateway_sandbox.Api.Extract.Names.{data_error_names_path}

abbrev path : Bytes
path = characters "card.exp_month"

path-plausible : is_plausible path ≡ true
unfolding is_plausible
path-plausible = refl

names_path_example :
    (reject_json (json_data_error (framing ++ path ++ b':' ∷ characters " invalid type"))).param
    ≡ some path
names_path_example = data_error_names_path path (characters " invalid type") path-plausible

-- A uuid without its dashes.
abbrev new_uuid : Bytes
new_uuid = characters "0198f2c47a3b7c1d9e4f5a6b7c8d9e0f"

abbrev as_header : Bytes → Option Bytes
as_header s = some s

new_uuid-hex : all_bytes is_hex new_uuid ≡ true
unfolding all_bytes
new_uuid-hex = refl

travels_example :
    let id = request_id (some (characters "  trace:42.a-b  ")) new_uuid in
    (is_acceptable id ≡ true)
    × (response_id as_header none id ≡ id)
    × (request_id (some (response_id as_header none id)) [] ≡ id)
travels_example =
    request_id_travels as_header (some (characters "  trace:42.a-b  ")) new_uuid [] (λ s h. refl)
      refl new_uuid-hex
