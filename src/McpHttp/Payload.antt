-- ===== src/McpHttp/Payload.antt =====
-- What the handler asks of a message before it is read: contains_request, is_result and
-- is_empty_sse_message of crates/rust-mcp-sdk/src/mcp_http/http_utils.rs, and
-- valid_initialize_method of utils.rs. The readers of JSON are parameters.
use rust_mcp_sdk.Prelude.{
  Bool, false, ◌&&◌, ◌||◌, Option, none, some, List, length, retain, any, all, is_empty, ltb,
  if◌then◌else◌,
}
use rust_mcp_sdk.Prelude.Text.{Text, codes, text_beq, trim}
use rust_mcp_sdk.McpHttp.Types.{SdkError, bad_request, invalid_request}

-- A JSON value, as far as it is asked: the keys of an object, and for each item of an array its keys
-- if it is an object.
pub data Value : Type 0 where
  object : List Text → Value
  array : List (Option (List Text)) → Value
  other_value : Value

-- `contains_key`
abbrev pub has_key : Text → List Text → Bool
has_key key keys = any (text_beq key) keys

abbrev pub of_object : (List Text → Bool) → Option (List Text) → Bool
of_object p none = false
of_object p (some keys) = p keys

abbrev pub is_request_object : List Text → Bool
is_request_object keys = has_key (codes "id") keys && has_key (codes "method") keys

abbrev pub map_value : (Value → Bool) → Option Value → Option Bool
map_value f none = none
map_value f (some value) = some (f value)

abbrev pub value_contains_request : Value → Bool
value_contains_request (object keys) = is_request_object keys
value_contains_request (array items) = any (of_object is_request_object) items
value_contains_request other_value = false

abbrev pub value_is_result : Value → Bool
value_is_result (object keys) = has_key (codes "result") keys
value_is_result (array items) = all (of_object (has_key (codes "result"))) items
value_is_result other_value = false

-- None stands for an error of the reader.
module _ (from_str : Text → Option Value) where
  unfoldable pub contains_request : Text → Option Bool
  contains_request json_str = map_value value_contains_request (from_str json_str)

  unfoldable pub is_result : Text → Option Bool
  is_result json_str = map_value value_is_result (from_str json_str)

-- `ClientMessages`, over the type of the messages.
pub data ClientMessages (M : Type 0) : Type 0 where
  single : M → ClientMessages M
  batch : List M → ClientMessages M

abbrev session_error : SdkError
session_error = bad_request (codes "Bad Request: Session not found")

module _ {M : Type 0} (is_initialize_request : M → Bool) where
  abbrev check_messages : Option (ClientMessages M) → Option SdkError
  check_messages none = some session_error
  check_messages (some (single message)) =
      if is_initialize_request message then none else some session_error
  check_messages (some (batch messages)) =
      if ltb 1 (length (retain is_initialize_request messages))
      then some (invalid_request (codes "Bad Request: Only one initialization request is allowed"))
      else none

  -- The error, if there is one.
  unfoldable pub valid_initialize_method :
      (Text → Option (ClientMessages M)) → Text → Option SdkError
  valid_initialize_method from_str json_str = check_messages (from_str json_str)

unfoldable pub is_empty_sse_message : Text → Bool
is_empty_sse_message sse_payload = is_empty sse_payload || text_beq (trim sse_payload) (codes ":")
