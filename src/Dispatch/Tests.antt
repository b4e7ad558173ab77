-- ===== src/Dispatch/Tests.antt =====
-- The dispatcher at concrete inputs. A message is its request's id, and zero is a notification.
use rust_mcp_sdk.Prelude.{
  ℕ, ◌≡◌, ◌≢◌, refl, true, false, not, none, some, List, [], ◌∷◌, ◌++◌, Eq, arith, ◌==◌, ==_iff,
  All, is_empty,
}
use rust_mcp_sdk.Prelude.Table.{lookup}
use rust_mcp_sdk.Prelude.Text.{Text, codes, trim, is_whitespace}
use rust_mcp_sdk.Prelude.Decimal.{to_decimal}
use rust_mcp_sdk.Events.{new, store_event, generate_event_id}
use rust_mcp_sdk.Sse.{blank_line, event_bytes, process_new_chunk}
use rust_mcp_sdk.Sse.Messages.{blank_buffer}
use rust_mcp_sdk.Sse.FieldLines.{IsFieldText, IsDataText}
use rust_mcp_sdk.Dispatch.{
  MessageDispatcher, Messages, new_dispatcher, make_resumable, server_write_str, writable_std,
  all_written, waiting, server_send_single, store_pending_request_for_message,
  store_pending_request, response, timed_out, batch_results,
}
use rust_mcp_sdk.Dispatch.Body.{
  line_event, received_event, process_new_chunk-server_write_str, process_new_chunk_replayed,
}
use rust_mcp_sdk.Dispatch.Responses.{
  Connection, Step, IsApart, sends, responds, gives_up, handled, step, run_steps, handle_response,
  received_on, handle_response-server_send_single,
}

instance abbrev nat_eq : Eq ℕ
nat_eq = record { beq = λ a b. a == b; beq_iff = ==_iff }

abbrev messages : Messages ℕ ℕ
messages = record {
  is_request = λ m. not (m == 0);
  request_id = λ m. some m;
  to_string = λ m. some (m ∷ []);
  batch_to_string = λ ms. some ms;
}

abbrev connection : Connection ℕ Text
connection = record { dispatcher = new_dispatcher []; sent = []; dropped = [] }

-- Another request is sent and answered before, and a third one is given up.
abbrev steps : List (Step ℕ ℕ Text)
steps =
    sends 8 1 3 all_written
    ∷ responds 8 (codes "b")
    ∷ sends 9 2 4 all_written
    ∷ gives_up 2
    ∷ responds 9 (codes "c")
    ∷ []

awaits : (server_send_single messages connection.dispatcher 7 0 2 all_written).1 ≡ waiting 0
unfolding server_send_single store_pending_request_for_message store_pending_request
    server_write_str new_dispatcher trim is_whitespace
awaits = refl

handle_response-server_send_single_example :
    let later = run_steps messages (step messages connection (sends 7 0 2 all_written)) steps in
    ((handle_response later 7 (codes "a")).1 ≡ handled)
    × (received_on 0 (handle_response later 7 (codes "a")).0.sent ≡ codes "a" ∷ [])
    × (lookup 7 (handle_response later 7 (codes "a")).0.dispatcher.pending_requests ≡ none)
unfolding lookup new_dispatcher
handle_response-server_send_single_example =
    handle_response-server_send_single messages connection 7 7 0 2 all_written steps (codes "a")
      refl refl awaits (λ j e. cc) refl refl apart
  where
    apart : All (IsApart messages 7 0) steps
    apart = ((λ e. cc, λ e. cc), ((λ e. cc), ((λ e. cc, λ e. cc), ((λ e. cc), ((λ e. cc), tt)))))

abbrev dispatcher : MessageDispatcher ℕ
dispatcher = make_resumable (new_dispatcher []) (codes "s") (codes "t") (new none)

abbrev id : Text
id = generate_event_id (codes "s") (codes "t") 5

id-IsFieldText : IsFieldText id
unfolding generate_event_id to_decimal trim is_whitespace
id-IsFieldText = record { ascii = omega arith; no_feed = omega arith; trimmed = refl }

no_bar : All (λ c. c ≢ b'|') id
unfolding generate_event_id to_decimal
no_bar = omega arith

payload-IsDataText : IsDataText (codes "{1|2}")
payload-IsDataText = record { ascii = omega arith; no_feed = omega arith; not_empty = refl }

payload_full : is_empty (trim (codes "{1|2}")) ≡ false
unfolding trim is_whitespace
payload_full = refl

std : dispatcher.writer ≡ writable_std
unfolding make_resumable new_dispatcher
std = refl

session : dispatcher.session_id ≡ some (codes "s")
unfolding make_resumable
session = refl

stream : dispatcher.stream_id ≡ some (codes "t")
unfolding make_resumable
stream = refl

events : dispatcher.event_store ≡ some (new none)
unfolding make_resumable
events = refl

process_new_chunk-server_write_str_example :
    let sent = (server_write_str dispatcher (codes "{1|2}") false 5 all_written).0 in
    (sent.event_store ≡ some (store_event (new none) (codes "s") (codes "t") 5 (codes "{1|2}")).0)
    × ((line : Text) × (sent.written ≡ dispatcher.written ++ line)
        × (process_new_chunk blank_line (event_bytes (line_event true line))
            ≡ (received_event id (codes "{1|2}") ∷ [], blank_line)))
process_new_chunk-server_write_str_example =
    process_new_chunk-server_write_str dispatcher (codes "s") (codes "t") (codes "{1|2}") (new none)
      5 blank_line std session stream events payload_full payload-IsDataText id-IsFieldText no_bar
      blank_buffer

front-IsFieldText : IsFieldText (codes "{1")
unfolding trim is_whitespace
front-IsFieldText = record { ascii = omega arith; no_feed = omega arith; trimmed = refl }

behind-IsDataText : IsDataText (codes "2}")
behind-IsDataText = record { ascii = omega arith; no_feed = omega arith; not_empty = refl }

-- The same message when it is replayed.
process_new_chunk_replayed_example :
    let line = (codes "{1" ++ b'|' ∷ codes "2}") ++ 10 ∷ [] in
    ((server_write_str dispatcher (codes "{1" ++ b'|' ∷ codes "2}") true 5 all_written).0.written
      ≡ dispatcher.written ++ line)
    × (process_new_chunk blank_line (event_bytes (line_event true line))
        ≡ (received_event (codes "{1") (codes "2}") ∷ [], blank_line))
process_new_chunk_replayed_example =
    process_new_chunk_replayed dispatcher (codes "{1") (codes "2}") 5 blank_line std
      front-IsFieldText (omega arith) behind-IsDataText blank_buffer

-- A request that timed out is answered with an error in its place.
results :
    batch_results {K = ℕ} {M = ℕ} messages
      (λ i e. codes "e")
      (response (codes "a") ∷ timed_out ∷ [])
      (some 1 ∷ some 2 ∷ [])
    ≡ codes "a" ∷ codes "e" ∷ []
results = refl
