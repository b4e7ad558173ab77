-- ===== src/RequestIds/Tests.antt =====
-- The generator of request ids at concrete inputs.
use rust_mcp_sdk.Prelude.{ℕ, ◌≡◌, ◌≢◌, refl, some, none, get_elem?, arith}
use rust_mcp_sdk.RequestIds.{RequestIdGenNumeric, new, last_request_id, next_request_id}
use rust_mcp_sdk.RequestIds.Distinct.{send_requests, get_elem?-send_requests_ne}

-- An initial id of 2^64 - 1 is taken for the sentinel once it is given out.
last_is_lost : last_request_id (next_request_id (new (some 18446744073709551615))).0 ≡ none
unfolding last_request_id next_request_id new
last_is_lost = refl

abbrev near_the_end : RequestIdGenNumeric
near_the_end = record { message_id_counter = 18446744073709551615; last_message_id = 7 }

get_elem?-send_requests_ne_example :
    (a : ℕ) × (b : ℕ) × (get_elem? (send_requests 3 near_the_end) 0 ≡ some (some a))
    × (get_elem? (send_requests 3 near_the_end) 1 ≡ some (some b))
    × (a ≢ b)
get_elem?-send_requests_ne_example =
    get_elem?-send_requests_ne 3 0 1 near_the_end (omega arith) (omega arith) (omega arith)
      (omega arith)
