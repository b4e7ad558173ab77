-- ===== src/Sse/Chunks.antt =====
-- `process_new_chunk` (sse_parser.rs) does not depend on where the bytes are cut into chunks.
use rust_mcp_sdk.Prelude.{
  ◌-◌, ◌≡◌, refl, sym, ap, ◌∙◌, false, not, List, [], ◌∷◌, ◌++◌, append_assoc, append-nil, arith,
  length, length-append, take, drop, retain, is_empty, All, All-append, if◌then◌else◌, Bool-cases,
  inl, inr,
}
use rust_mcp_sdk.Prelude.Utf8.{Bytes}
use rust_mcp_sdk.Sse.{
  SseEvent, concat, is_blank, ends_message, option_to_list, parse_sse_message, assemble, take_lines,
  process_new_chunk,
}
use rust_mcp_sdk.Sse.Lines.{
  IsLine, split_lines, split_lines-IsLine, split_lines-append, split_lines-concat,
  take_lines-eq-split_lines,
}

-- Lines among which no message ends: only the first may be blank.
abbrev pub IsQuiet : List Bytes → Type 0
IsQuiet [] = Unit
IsQuiet (l ∷ ls) = All (λ k. is_blank k ≡ false) ls

assemble_step :
    (current lines : List Bytes) (line : Bytes)
    → ends_message current line ≡ false
    → assemble current (line ∷ lines) ≡ assemble (current ++ line ∷ []) lines
unfolding assemble
assemble_step current lines line h = rw h refl

assemble-quiet_from :
    (p : Bytes) (ps quiet lines : List Bytes)
    → All (λ k. is_blank k ≡ false) quiet
    → assemble (p ∷ ps) (quiet ++ lines) ≡ assemble ((p ∷ ps) ++ quiet) lines
assemble-quiet_from p ps [] lines h = rw append-nil refl
assemble-quiet_from p ps (l ∷ quiet) lines h =
    assemble_step (p ∷ ps) (quiet ++ lines) l (ground (arith, h.0))
    ∙ assemble-quiet_from p (ps ++ l ∷ []) quiet lines h.1
    ∙ ap (λ c. assemble (p ∷ c) lines) (append_assoc ps (l ∷ []) quiet)

-- Lines that were put back into the buffer lead to the state in which they were put back.
pub assemble-quiet :
    (quiet lines : List Bytes) → IsQuiet quiet → assemble [] (quiet ++ lines) ≡ assemble quiet lines
assemble-quiet [] lines h = refl
assemble-quiet (l ∷ quiet) lines h =
    assemble_step [] (quiet ++ lines) l refl ∙ assemble-quiet_from l [] quiet lines h

pub drop_last :
    (current : List Bytes) (line : Bytes)
    → drop (length (current ++ line ∷ []) - 1) (current ++ line ∷ []) ≡ line ∷ []
drop_last current line =
    let n : length (current ++ line ∷ []) - 1 ≡ length current =
      omega (arith, length-append {0} current (line ∷ [])) in
    rw n (go current)
  where
    go : (c : List Bytes) → drop (length c) (c ++ line ∷ []) ≡ line ∷ []
    go [] = refl
    go (l ∷ c) = go c

IsQuiet-push :
    (current : List Bytes) (line : Bytes)
    → IsQuiet current
    → ends_message current line ≡ false
    → IsQuiet (current ++ line ∷ [])
IsQuiet-push [] line h e = tt
IsQuiet-push (p ∷ ps) line h e =
    All-append (λ k. is_blank k ≡ false) ps (line ∷ []) h
      (ground (arith, length-append {0} ps (line ∷ [])), tt)

module _ (P : List Bytes → Type 0) where
  -- A property of the lines held that a push and the end of a message keep.
  assemble_inv :
      (good : Bytes → Type 0)
      → ((c : List Bytes) (l : Bytes) → P c → good l → ends_message c l ≡ false → P (c ++ l ∷ []))
      → ((l : Bytes) → good l → P (l ∷ []))
      → (current lines : List Bytes) → P current
      → All good lines
      → P (assemble current lines).1
  unfolding assemble
  assemble_inv good push single current [] h all = h
  assemble_inv good push single current (line ∷ lines) h all =
      elim (Bool-cases (ends_message current line)) [
        | inl e ↦ rw e (
            rw (drop_last current line)
              (assemble_inv good push single (line ∷ []) lines (single line all.0) all.1))
        | inr e ↦ rw e (
            assemble_inv good push single (current ++ line ∷ []) lines (push current line h all.0 e)
              all.1)
      ]

All-unit : (ls : List Bytes) → All (λ (l : Bytes). Unit {0}) ls
All-unit [] = tt
All-unit (l ∷ ls) = (tt, All-unit ls)

assemble-IsQuiet :
    (current lines : List Bytes) → IsQuiet current → IsQuiet (assemble current lines).1
assemble-IsQuiet current lines h =
    assemble_inv IsQuiet (λ l. Unit {0}) (λ c l hc u e. IsQuiet-push c l hc e) (λ l u. tt) current
      lines h (All-unit lines)

assemble-IsLine :
    (current lines : List Bytes)
    → All IsLine current
    → All IsLine lines
    → All IsLine (assemble current lines).1
assemble-IsLine =
    assemble_inv (All IsLine) IsLine (λ c l hc hl e. All-append IsLine c (l ∷ []) hc (hl, tt))
      (λ l hl. (hl, tt))

-- One round of the loop: the lines that it leaves, and the events that it makes.
abbrev pub next : List Bytes → Bytes → List Bytes
next current line =
    if ends_message current line
    then drop (length (current ++ line ∷ []) - 1) (current ++ line ∷ [])
    else current ++ line ∷ []

abbrev pub made : List Bytes → Bytes → List SseEvent
made current line =
    if ends_message current line
    then option_to_list (
        parse_sse_message (
          retain (λ l. not (is_blank l))
            (take (length (current ++ line ∷ []) - 1) (current ++ line ∷ []))))
    else []

pub assemble-cons :
    (current lines : List Bytes) (line : Bytes)
    → assemble current (line ∷ lines) ≡ (
      made current line ++ (assemble (next current line) lines).0,
      (assemble (next current line) lines).1,
    )
unfolding assemble
assemble-cons current lines line = refl

pub assemble-append :
    (current ls ks : List Bytes)
    → assemble current (ls ++ ks) ≡ (
      (assemble current ls).0 ++ (assemble (assemble current ls).1 ks).0,
      (assemble (assemble current ls).1 ks).1,
    )
assemble-append current [] ks = unfold assemble in refl
assemble-append current (line ∷ ls) ks = rw (assemble-cons current (ls ++ ks) line) (
    rw (assemble-cons current ls line)
      (rw (assemble-append (next current line) ls ks) (rw append_assoc refl)))

put_back :
    (left : List Bytes) (rest : Bytes)
    → (if not (is_empty left) then concat left ++ rest else rest) ≡ concat left ++ rest
put_back [] rest = refl
put_back (l ∷ left) rest = refl

-- What the loop over the lines makes of the buffer's lines.
abbrev pub out : List Bytes × Bytes → List SseEvent × Bytes
out r = ((assemble [] r.0).0, concat (assemble [] r.0).1 ++ r.1)

pub process_new_chunk-eq :
    (old bytes : Bytes) → process_new_chunk old bytes ≡ out (split_lines (old ++ bytes))
unfolding process_new_chunk
process_new_chunk-eq old bytes =
    rw (take_lines-eq-split_lines (length (old ++ bytes)) (old ++ bytes) (omega arith)) (
      ap (λ b. ((assemble [] (split_lines (old ++ bytes)).0).0, b))
        (put_back (assemble [] (split_lines (old ++ bytes)).0).1 (split_lines (old ++ bytes)).1))

-- What both ways of cutting lead to: the lines of the first part, and those that it leaves open.
module _ (s t : Bytes) where
  abbrev first : List Bytes × Bytes
  first = split_lines s

  abbrev second : List Bytes × Bytes
  second = split_lines (first.1 ++ t)

  abbrev left : List Bytes
  left = (assemble [] first.0).1

  buffer_append : split_lines ((concat left ++ first.1) ++ t) ≡ (left ++ second.0, second.1)
  buffer_append = rw (append_assoc (concat left) first.1 t) (
      split_lines-concat left (first.1 ++ t) (assemble-IsLine [] first.0 tt (split_lines-IsLine s)))

  assemble_again : assemble [] (left ++ second.0) ≡ assemble left second.0
  assemble_again = assemble-quiet left second.0 (assemble-IsQuiet [] first.0 tt)

  abbrev both : List SseEvent × Bytes
  both = (
    (assemble [] first.0).0 ++ (assemble left second.0).0,
    concat (assemble left second.0).1 ++ second.1,
  )

  out_at_once : out (split_lines (s ++ t)) ≡ both
  out_at_once =
      ap out (split_lines-append s t)
      ∙ ap
          (λ (r : List SseEvent × List Bytes).
            let b : List SseEvent × Bytes = (r.0, concat r.1 ++ second.1) in b)
          (assemble-append [] first.0 second.0)

  out_in_turn :
      ◌≡◌ {A = List SseEvent × Bytes}
        (
          (out first).0 ++ (out (split_lines ((out first).1 ++ t))).0,
          (out (split_lines ((out first).1 ++ t))).1,
        )
        both
  out_in_turn =
      ap
        (λ (r : List SseEvent × Bytes).
          let b : List SseEvent × Bytes = ((out first).0 ++ r.0, r.1) in b)
        (ap out buffer_append
          ∙ ap
              (λ (r : List SseEvent × List Bytes).
                let b : List SseEvent × Bytes = (r.0, concat r.1 ++ second.1) in b)
              assemble_again)

-- Two chunks have the events of the one chunk that they make up, and leave the same buffer.
pub process_new_chunk-append :
    (old a b : Bytes)
    → process_new_chunk old (a ++ b) ≡ (
      (process_new_chunk old a).0 ++ (process_new_chunk (process_new_chunk old a).1 b).0,
      (process_new_chunk (process_new_chunk old a).1 b).1,
    )
process_new_chunk-append old a b = rw process_new_chunk-eq (
    rw (← append_assoc old a b) (
      rw (process_new_chunk-eq old a) (
        rw (process_new_chunk-eq (out (split_lines (old ++ a))).1 b)
          (out_at_once (old ++ a) b ∙ sym (out_in_turn (old ++ a) b)))))

-- The chunks of a stream, as they arrive.
unfoldable pub feed : Bytes → List Bytes → List SseEvent × Bytes
feed old [] = ([], old)
feed old (chunk ∷ chunks) =
    let (events, buffer) = process_new_chunk old chunk in
    let (more, buffer') = feed buffer chunks in (events ++ more, buffer')

-- However a stream is cut into chunks, the parser makes the events of the whole stream at once,
-- and is left with the same buffer.
pub feed-eq-process_new_chunk :
    (old chunk : Bytes) (chunks : List Bytes)
    → feed old (chunk ∷ chunks) ≡ process_new_chunk old (concat (chunk ∷ chunks))
unfolding feed
feed-eq-process_new_chunk old chunk [] = rw (append-nil, append-nil) refl
feed-eq-process_new_chunk old chunk (chunk' ∷ chunks) =
    ap
      (λ (r : List SseEvent × Bytes).
        let b : List SseEvent × Bytes = ((process_new_chunk old chunk).0 ++ r.0, r.1) in b)
      (feed-eq-process_new_chunk (process_new_chunk old chunk).1 chunk' chunks)
    ∙ sym (process_new_chunk-append old chunk (chunk' ++ concat chunks))

process_new_chunk_nothing : process_new_chunk [] [] ≡ ([], [])
unfolding process_new_chunk assemble take_lines
process_new_chunk_nothing = refl

-- Two ways to cut the same bytes lead a new parser to the same events and the same buffer.
pub feed_same :
    (chunks chunks' : List Bytes)
    → concat chunks ≡ concat chunks'
    → feed [] chunks ≡ feed [] chunks'
feed_same chunks chunks' h = whole chunks ∙ ap (process_new_chunk []) h ∙ sym (whole chunks')
  where
    whole : (cs : List Bytes) → feed [] cs ≡ process_new_chunk [] (concat cs)
    whole [] = unfold feed in sym process_new_chunk_nothing
    whole (c ∷ cs) = feed-eq-process_new_chunk [] c cs
