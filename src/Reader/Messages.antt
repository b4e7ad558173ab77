-- ===== src/Reader/Messages.antt =====
-- The messages of a whole stream (crates/rust-mcp-transport/src/mcp_stream.rs).
use rust_mcp_sdk.Prelude.{
  ℕ, zero, suc, ◌+◌, ◌<◌, ◌≡◌, refl, ap, ◌∙◌, Bool, true, Option, none, some, List, [], ◌∷◌, length,
  arith, ltb, if◌then◌else◌, Bool-cases, inl, inr, unwrap_or,
}
use rust_mcp_sdk.Prelude.Text.{Text}
use rust_mcp_sdk.Prelude.Utf8.{Bytes}
use rust_mcp_sdk.Reader.{
  Chunk, ok, is_newline, line_to_string, read_capped_line, read_line, sent_on, with_read,
  spawn_reader,
}
use rust_mcp_sdk.Reader.Cuts.{byte_lines, cut, bytes_of, IsSound, byte_lines-cut, byte_lines_of_cut}
use rust_mcp_sdk.Reader.Lines.{outcome, capped, read_line-cut}

abbrev length_of_cut : Bytes × Option Bytes → ℕ
length_of_cut (l, none) = length l
length_of_cut (l, some rest) = length l + suc (length rest)

length-cut : (s : Bytes) → length s ≡ length_of_cut (cut s)
unfolding cut
length-cut [] = refl
length-cut (b ∷ s) = elim (Bool-cases (is_newline b)) [
  | inl e ↦ rw e (omega arith)
  | inr e ↦ rw e (go (cut s) (length-cut s))
]
  where
    go :
        (c : Bytes × Option Bytes)
        → length s ≡ length_of_cut c
        → suc (length s) ≡ length_of_cut (b ∷ c.0, c.1)
    go (l, none) h = omega (arith, h)
    go (l, some rest) h = omega (arith, h)

module _ {X : Type 0} (from_str : Text → Option X) (max : ℕ) where
  -- The messages of some lines: those that are not too long, and that are messages.
  abbrev pub messages_of : List Bytes → List X
  messages_of [] = []
  messages_of (l ∷ ls) =
      let rest = messages_of ls in
      if ltb max (length l) then rest else sent_on from_str (from_str (line_to_string l)) rest

  with_read-capped :
      (l : Bytes) (ls : List Bytes)
      → with_read from_str (ok (capped max l)) (messages_of ls, true) ≡ (messages_of (l ∷ ls), true)
  with_read-capped l ls = elim (Bool-cases (ltb max (length l))) [
    | inl e ↦ rw e refl
    | inr e ↦ rw e refl
  ]

  -- The rounds behind a line, by what they are given.
  with_read-outcome :
      (fuel : ℕ) (size : ℕ) (c : Bytes × Option Bytes) (rest : List X × Bool)
      → size ≡ length_of_cut c
      → size < suc fuel
      → (length (unwrap_or c.1 []) < fuel
          → rest ≡ (messages_of (byte_lines (unwrap_or c.1 [])), true))
      → with_read from_str (ok (outcome max [] c)) rest ≡ (messages_of (byte_lines_of_cut c), true)
  unfolding byte_lines
  with_read-outcome fuel size ([], none) rest n enough again = refl
  with_read-outcome fuel size (b ∷ l, none) rest n enough again =
      ap (with_read from_str (ok (capped max (b ∷ l)))) (again (omega (arith, n, enough)))
      ∙ with_read-capped (b ∷ l) []
  with_read-outcome fuel size (l, some r) rest n enough again =
      ap (with_read from_str (ok (capped max l))) (again (omega (arith, n, enough)))
      ∙ with_read-capped l (byte_lines r)

  -- The task that reads ends without an error and has sent on, in their order, exactly the messages
  -- among the lines of the stream that are not longer than the cap, however the bytes of the stream
  -- were cut into chunks: where the stream gives no error, and for as many rounds as it has bytes.
  pub spawn_reader-messages_of :
      (fuel : ℕ) (chunks : List Chunk)
      → IsSound chunks
      → length (bytes_of chunks) < fuel
      → spawn_reader from_str fuel max chunks ≡ (messages_of (byte_lines (bytes_of chunks)), true)
  unfolding spawn_reader read_capped_line
  spawn_reader-messages_of zero chunks h enough = absurd (omega (arith, enough))
  spawn_reader-messages_of (suc fuel) chunks h enough =
      let (read, left, sound) = read_line-cut max [] chunks h (omega arith) in
      rw read (
        rw (byte_lines-cut (bytes_of chunks)) (
          with_read-outcome fuel (length (bytes_of chunks)) (cut (bytes_of chunks)) _
            (length-cut (bytes_of chunks)) enough
            (λ below.
              rw (← left)
                (spawn_reader-messages_of fuel (read_line max [] chunks).1 sound (rw left below)))))
