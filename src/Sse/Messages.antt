-- ===== src/Sse/Messages.antt =====
-- The end of a message in the loop of `process_new_chunk` (sse_parser.rs).
use rust_mcp_sdk.Prelude.{
  ◌-◌, ◌≡◌, refl, ap, ◌∙◌, true, false, not, ◌&&◌, List, [], ◌∷◌, ◌++◌, append-nil, arith, length,
  length-append, take, retain, All, leb,
}
use rust_mcp_sdk.Prelude.Text.{text_beq_iff}
use rust_mcp_sdk.Prelude.Utf8.{Bytes}
use rust_mcp_sdk.Sse.{parse_sse_message, blank_line, assemble, is_blank, option_to_list}
use rust_mcp_sdk.Sse.Chunks.{assemble-quiet, drop_last}

-- The blank line behind the lines of a message ends it.
ends_message_blank :
    (c : Bytes) (cs : List Bytes)
    → (leb 2 (length ((c ∷ cs) ++ blank_line ∷ [])) && is_blank blank_line) ≡ true
ends_message_blank c cs =
    ground (arith, length-append {0} cs (blank_line ∷ []), text_beq_iff blank_line blank_line)

take_last :
    (current : List Bytes) (line : Bytes)
    → take (length (current ++ line ∷ []) - 1) (current ++ line ∷ []) ≡ current
take_last current line =
    let n : length (current ++ line ∷ []) - 1 ≡ length current =
      omega (arith, length-append {0} current (line ∷ [])) in
    rw n (go current)
  where
    go : (c : List Bytes) → take (length c) (c ++ line ∷ []) ≡ c
    go [] = refl
    go (l ∷ c) = ap (λ r. l ∷ r) (go c)

assemble_end :
    (c : Bytes) (cs : List Bytes)
    → assemble (c ∷ cs) (blank_line ∷ []) ≡ (
      option_to_list (parse_sse_message (retain (λ l. not (is_blank l)) (c ∷ cs))),
      blank_line ∷ [],
    )
unfolding assemble
assemble_end c cs =
    rw (ends_message_blank c cs)
      (rw (take_last (c ∷ cs) blank_line) (rw (drop_last (c ∷ cs) blank_line) (rw append-nil refl)))

abbrev pub NotBlank : List Bytes → Type 0
NotBlank = All (λ l. is_blank l ≡ false)

retain-NotBlank : (ls : List Bytes) → NotBlank ls → retain (λ l. not (is_blank l)) ls ≡ ls
retain-NotBlank [] h = refl
retain-NotBlank (l ∷ ls) h = rw (h.0, retain-NotBlank ls h.1) refl

-- The buffer of a parser that has no open message: empty, or the blank line of the last message.
pub data IsRested : Bytes → Type 0 where
  empty_buffer : IsRested []
  blank_buffer : IsRested blank_line

-- Lines behind such a buffer, and the blank line that ends their message.
pub assemble_message :
    (l : Bytes) (ls : List Bytes)
    → NotBlank (l ∷ ls)
    → assemble [] ((l ∷ ls) ++ blank_line ∷ [])
      ≡ (option_to_list (parse_sse_message (l ∷ ls)), blank_line ∷ [])
assemble_message l ls h =
    assemble-quiet (l ∷ ls) (blank_line ∷ []) h.1
    ∙ assemble_end l ls
    ∙ ap (λ k. (option_to_list (parse_sse_message k), blank_line ∷ [])) (retain-NotBlank (l ∷ ls) h)

blank_dropped :
    (ls : List Bytes) → NotBlank ls → retain (λ l. not (is_blank l)) (blank_line ∷ ls) ≡ ls
blank_dropped ls h = rw ((text_beq_iff blank_line blank_line).1 refl) (retain-NotBlank ls h)

pub assemble_next_message :
    (ls : List Bytes)
    → NotBlank ls
    → assemble [] ((blank_line ∷ ls) ++ blank_line ∷ [])
      ≡ (option_to_list (parse_sse_message ls), blank_line ∷ [])
assemble_next_message ls h =
    assemble-quiet (blank_line ∷ ls) (blank_line ∷ []) h
    ∙ assemble_end blank_line ls
    ∙ ap (λ k. (option_to_list (parse_sse_message k), blank_line ∷ [])) (blank_dropped ls h)
