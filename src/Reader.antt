-- ===== src/Reader.antt =====
-- The reader of newline-delimited messages with a cap on the length of a line:
-- crates/rust-mcp-transport/src/mcp_stream.rs. The readable stream is the list of what it will
-- give, where a chunk of bytes is not empty; its end is the end of the list. The decoder of JSON is
-- a parameter. Cancellation, a receiver that is dropped, and logging, whose slice of a line can panic
-- where it is enabled at the level TRACE, are not modelled.
pub mod Cuts
pub mod Lines
pub mod Messages
mod Tests
use rust_mcp_sdk.Prelude.{
  ℕ, zero, suc, ◌+◌, Bool, true, false, Option, none, some, List, [], ◌∷◌, ◌++◌, length, take, drop,
  position, is_empty, ltb, ◌==◌, if◌then◌else◌,
}
use rust_mcp_sdk.Prelude.Text.{Text}
use rust_mcp_sdk.Prelude.Utf8.{Bytes, from_utf8_lossy}
use rust_mcp_sdk.Sse.{strip_return}

-- What the stream gives: a byte and those behind it, or an error.
pub data Chunk : Type 0 where
  chunk_of : ℕ → Bytes → Chunk
  broken : Chunk

pub data LineRead : Type 0 where
  line : Text → LineRead
  too_long : LineRead
  eof : LineRead

pub data ReadResult : Type 0 where
  ok : LineRead → ReadResult
  io_error : ReadResult

abbrev pub is_newline : ℕ → Bool
is_newline b = b == 10

-- The stream after `consume`, by what is left of its first chunk.
abbrev pub unread : Bytes → List Chunk → List Chunk
unread [] rest = rest
unread (b ∷ s) rest = chunk_of b s ∷ rest

unfoldable pub line_to_string : Bytes → Text
line_to_string buf = from_utf8_lossy (strip_return buf)

-- `discard_to_newline`: whether it comes to its end without an error, and the stream.
unfoldable pub discard_to_newline : List Chunk → Bool × List Chunk
discard_to_newline [] = (true, [])
discard_to_newline (broken ∷ rest) = (false, rest)
discard_to_newline (chunk_of b s ∷ rest) =
    let skipped = discard_to_newline rest in
    elim (position is_newline (b ∷ s)) [
      | none ↦ skipped
      | some pos ↦ (true, unread (drop (suc pos) (b ∷ s)) rest)
    ]

abbrev pub dropped : Bool × List Chunk → ReadResult × List Chunk
dropped (done, rest) = (if done then ok too_long else io_error, rest)

-- The loop of `read_capped_line`, by the bytes that are buffered.
unfoldable pub read_line : ℕ → Bytes → List Chunk → ReadResult × List Chunk
read_line max buf [] = (ok (if is_empty buf then eof else line (line_to_string buf)), [])
read_line max buf (broken ∷ rest) = (io_error, rest)
read_line max buf (chunk_of b s ∷ rest) =
    let longer = read_line max (buf ++ b ∷ s) rest in
    elim (position is_newline (b ∷ s)) [
      | some pos ↦ (
        ok (
            if ltb max (length buf + pos)
            then too_long
            else line (line_to_string (buf ++ take pos (b ∷ s)))),
        unread (drop (suc pos) (b ∷ s)) rest,
      )
      | none ↦
          if ltb max (length buf + length (b ∷ s))
          then dropped (discard_to_newline rest)
          else longer
    ]

unfoldable pub read_capped_line : ℕ → List Chunk → ReadResult × List Chunk
read_capped_line max chunks = read_line max [] chunks

-- The loop of `spawn_reader`: the messages that are sent on, and whether it ends without an error.
-- A line that is too long or not a message is passed over.
module _ {X : Type 0} (from_str : Text → Option X) where
  abbrev pub sent_on : Option X → List X → List X
  sent_on none messages = messages
  sent_on (some message) messages = message ∷ messages

  -- What is done with a line, by the messages of the rounds behind it.
  abbrev pub with_read : ReadResult → List X × Bool → List X × Bool
  with_read io_error rest = ([], false)
  with_read (ok eof) rest = ([], true)
  with_read (ok too_long) rest = rest
  with_read (ok (line text)) rest = (sent_on (from_str text) rest.0, rest.1)

  unfoldable pub spawn_reader : ℕ → ℕ → List Chunk → List X × Bool
  spawn_reader zero max chunks = ([], true)
  spawn_reader (suc fuel) max chunks =
      let read = read_capped_line max chunks in with_read read.0 (spawn_reader fuel max read.1)
