-- ===== src/Api/Idempotency/Fingerprint.antt =====
-- What the text that the middleware hashes says of a request: its method, its path and its body.
use payment_gateway_sandbox.Prelude.{◌≡◌, refl, arith, true, ◌∷◌}
use payment_gateway_sandbox.Prelude.Bytes.{Bytes, all_bytes, lacks, split_unique, lacks-append}
use payment_gateway_sandbox.Api.Idempotency.{
  Method, get, head, options, post, put, patch, delete, method_name, preimage, endpoint_of,
}

method_name-lacks :
    (m : Method) → (lacks 0 (method_name m) ≡ true) × (lacks 32 (method_name m) ≡ true)
unfolding method_name all_bytes
method_name-lacks get = (refl, refl)
method_name-lacks head = (refl, refl)
method_name-lacks options = (refl, refl)
method_name-lacks post = (refl, refl)
method_name-lacks put = (refl, refl)
method_name-lacks patch = (refl, refl)
method_name-lacks delete = (refl, refl)

method_name_injective : (m m' : Method) → method_name m ≡ method_name m' → m ≡ m'
unfolding method_name
method_name_injective m m' h = ground arith

endpoint_of-lacks :
    (m : Method) (path : Bytes) → lacks 0 path ≡ true → lacks 0 (endpoint_of m path) ≡ true
unfolding endpoint_of all_bytes
endpoint_of-lacks m path h =
    ground (arith, lacks-append 0 (method_name m) (32 ∷ path), method_name-lacks m)

-- Two requests hash one text only when they have the method, the path and the body in common. A path has
-- no NUL byte, as in a URI.
pub preimage_injective :
    (m m' : Method) (path path' body body' : Bytes)
    → lacks 0 path ≡ true
    → lacks 0 path' ≡ true
    → preimage (endpoint_of m path) body ≡ preimage (endpoint_of m' path') body'
    → (m ≡ m') × (path ≡ path') × (body ≡ body')
unfolding preimage endpoint_of
preimage_injective m m' path path' body body' h h' e =
    let whole =
      split_unique 0 (endpoint_of m path) (endpoint_of m' path') body body'
        (endpoint_of-lacks m path h) (endpoint_of-lacks m' path' h') e in
    let line =
      split_unique 32 (method_name m) (method_name m') path path' (method_name-lacks m).1
        (method_name-lacks m').1 whole.0 in
    (method_name_injective m m' line.0, line.1, whole.1)
