-- ===== src/RequestIds.antt =====
-- The numeric generator of request ids: crates/rust-mcp-sdk/src/mcp_traits/request_id_gen.rs. An
-- `i64` stands for its bit pattern, so that -1 is 2^64 - 1 and the counter wraps around.
pub mod Distinct
mod Tests
use rust_mcp_sdk.Prelude.{
  ℕ, zero, suc, ◌+◌, ◌-◌, ◌%◌, ◌^◌, Bool, true, false, not, Option, none, some, List, [], ◌∷◌,
  is_some, if◌then◌else◌, ◌==◌, unwrap_or,
}

abbrev pub word : ℕ
word = 2 ^ 64

-- The sentinel -1.
abbrev pub no_id : ℕ
no_id = 2 ^ 64 - 1

pub record RequestIdGenNumeric : Type 0 where
  pub message_id_counter : ℕ
  pub last_message_id : ℕ

unfoldable pub new : Option ℕ → RequestIdGenNumeric
new initial_id = record { message_id_counter = unwrap_or initial_id 0; last_message_id = no_id }

unfoldable pub next_request_id : RequestIdGenNumeric → RequestIdGenNumeric × ℕ
next_request_id g = (
  record {
    message_id_counter = (g.message_id_counter + 1) % word;
    last_message_id = g.message_id_counter;
  },
  g.message_id_counter,
)

unfoldable pub last_request_id : RequestIdGenNumeric → Option ℕ
last_request_id g = if g.last_message_id == no_id then none else some g.last_message_id

unfoldable pub reset_to : RequestIdGenNumeric → ℕ → RequestIdGenNumeric
reset_to g id = record g { message_id_counter = id }

-- By what the message is. None stands for an assertion that fails.
unfoldable pub request_id_for_message :
    RequestIdGenNumeric → Bool → Bool → Option ℕ → Option (RequestIdGenNumeric × Option ℕ)
request_id_for_message g is_request is_notification request_id =
    if is_request
    then (if is_some request_id
        then none
        else some ((next_request_id g).0, some (next_request_id g).1))
    else (if is_notification
        then some (g, none)
        else (if is_some request_id then some (g, request_id) else none))
