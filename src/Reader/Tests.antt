-- ===== src/Reader/Tests.antt =====
-- The reader at concrete inputs, where every text but "bad" is a message.
use rust_mcp_sdk.Prelude.{◌≡◌, true, Option, some, none, List, [], ◌∷◌, arith, if◌then◌else◌}
use rust_mcp_sdk.Prelude.Text.{Text, codes, text_beq}
use rust_mcp_sdk.Prelude.Utf8.{from_utf8_lossy}
use rust_mcp_sdk.Sse.{strip_return}
use rust_mcp_sdk.Reader.{Chunk, chunk_of, spawn_reader, line_to_string}
use rust_mcp_sdk.Reader.Cuts.{byte_lines}
use rust_mcp_sdk.Reader.Messages.{spawn_reader-messages_of}

abbrev from_str : Text → Option Text
from_str s = if text_beq s (codes "bad") then none else some s

-- A line cut in two, one that is too long, one that is no message, and one without a line feed.
abbrev chunks : List Chunk
chunks =
    chunk_of b'h' (codes "el")
    ∷ chunk_of b'l' (codes "o\r\nworld!!")
    ∷ chunk_of b'!' (codes "\nbad\nok")
    ∷ []

spawn_reader-messages_of_example :
    spawn_reader from_str 40 7 chunks ≡ (codes "hello" ∷ codes "ok" ∷ [], true)
unfolding spawn_reader line_to_string strip_return from_utf8_lossy text_beq byte_lines
spawn_reader-messages_of_example = spawn_reader-messages_of from_str 7 40 chunks tt (omega arith)
