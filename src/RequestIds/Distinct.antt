-- ===== src/RequestIds/Distinct.antt =====
-- The ids of a number of requests (mcp_traits/request_id_gen.rs).
use rust_mcp_sdk.Prelude.{
  ℕ, zero, suc, ◌+◌, ◌%◌, ◌<◌, ◌≤◌, ◌≡◌, ◌≢◌, ap, ◌∙◌, true, false, Option, none, some, List, [],
  ◌∷◌, get_elem?, arith,
}
use rust_mcp_sdk.RequestIds.{RequestIdGenNumeric, word, next_request_id, request_id_for_message}

-- The ids of n requests that are sent one after the other. A failed
-- assertion ends them.
unfoldable pub send_requests : ℕ → RequestIdGenNumeric → List (Option ℕ)
send_requests zero g = []
send_requests (suc n) g = elim (request_id_for_message g true false none) [
  | none ↦ []
  | some (h, id) ↦ id ∷ send_requests n h
]

-- The ids count up from the counter and wrap around.
get_elem?-send_requests :
    (n i : ℕ) (g : RequestIdGenNumeric)
    → g.message_id_counter < word
    → i < n
    → get_elem? (send_requests n g) i ≡ some (some ((g.message_id_counter + i) % word))
unfolding send_requests request_id_for_message next_request_id
get_elem?-send_requests zero i g b h = absurd (omega (arith, h))
get_elem?-send_requests (suc n) zero g b h = ap (λ k. some (some k)) (omega (arith, b))
get_elem?-send_requests (suc n) (suc i) g b h =
    get_elem?-send_requests n i (next_request_id g).0 (omega arith) (omega (arith, h))
    ∙ ap (λ k. some (some k)) (omega arith)

-- Of up to 2^64 requests that are sent one after the other no two have the same id, although the
-- counter wraps around: every one has an id, and two of them differ.
pub get_elem?-send_requests_ne :
    (n i j : ℕ) (g : RequestIdGenNumeric)
    → g.message_id_counter < word
    → n ≤ word
    → i < j
    → j < n
    → (a : ℕ) × (b : ℕ) × (get_elem? (send_requests n g) i ≡ some (some a))
      × (get_elem? (send_requests n g) j ≡ some (some b))
      × (a ≢ b)
get_elem?-send_requests_ne n i j g b le lt below = (
  (g.message_id_counter + i) % word,
  (g.message_id_counter + j) % word,
  get_elem?-send_requests n i g b (omega (arith, lt, below)),
  get_elem?-send_requests n j g b below,
  λ e. omega (arith, e, le, lt, below, b),
)
