-- ===== src/Reader/Lines.antt =====
-- One line, however the bytes are cut into chunks (crates/rust-mcp-transport/src/mcp_stream.rs).
use rust_mcp_sdk.Prelude.{
  ℕ, suc, ◌+◌, ◌≤◌, ◌<◌, ◌≡◌, refl, sym, ap, ◌∙◌, Option, none, some, List, [], ◌∷◌, ◌++◌,
  append_assoc, append-nil, length, length-append, take, drop, position, is_empty, arith, ltb,
  if◌then◌else◌, Bool-cases, Option-cases, inl, inr, unwrap_or,
}
use rust_mcp_sdk.Prelude.Utf8.{Bytes}
use rust_mcp_sdk.Reader.{
  Chunk, chunk_of, broken, LineRead, line, too_long, eof, ok, is_newline, line_to_string, read_line,
}
use rust_mcp_sdk.Reader.Cuts.{
  cut, bytes_of, IsSound, bytes_of-unread, cut-append-none, cut-append-some, discard_to_newline-cut,
}

-- A line that is at most as long as the cap.
abbrev pub capped : ℕ → Bytes → LineRead
capped max l = if ltb max (length l) then too_long else line (line_to_string l)

abbrev pub outcome : ℕ → Bytes → Bytes × Option Bytes → LineRead
outcome max buf (l, none) = if is_empty (buf ++ l) then eof else capped max (buf ++ l)
outcome max buf (l, some rest) = capped max (buf ++ l)

length-take-position :
    (s : Bytes) (pos : ℕ) → position is_newline s ≡ some pos → length (take pos s) ≡ pos
length-take-position [] pos h = cc
length-take-position (b ∷ s) pos h = elim (Bool-cases (is_newline b)) [
  | inl e ↦ ground (arith, e, h)
  | inr e ↦ elim (Option-cases (position is_newline s)) [
    | inl n ↦ ground (arith, e, h, n)
    | inr (i, n) ↦ ground (arith, e, h, n, length-take-position s i n)
  ]
]

-- A line that is longer than the cap already.
outcome-too_long :
    (max : ℕ) (buf l m : Bytes) (rest : Option Bytes)
    → max < length buf + length l
    → outcome max buf (l ++ m, rest) ≡ too_long
outcome-too_long max buf l m (some rest) h =
    ground (arith, h, length-append buf (l ++ m), length-append l m)
outcome-too_long max buf l m none h =
    elim (buf ++ (l ++ m))
        as (λ k.
          length k ≡ length buf + (length l + length m)
          → (if is_empty k then eof else capped max k) ≡ too_long) [
            | [] ↦ λ e. absurd (omega (arith, e, h))
            | b ∷ k ↦ λ e. ground (arith, e, h)
          ]
      (length-append buf (l ++ m) ∙ ap (λ k. length buf + k) (length-append l m))

outcome-append :
    (max : ℕ) (buf l : Bytes) (c : Bytes × Option Bytes)
    → outcome max (buf ++ l) c ≡ outcome max buf (l ++ c.0, c.1)
outcome-append max buf l (m, none) = rw (append_assoc buf l m) refl
outcome-append max buf l (m, some rest) = rw (append_assoc buf l m) refl

capped_by :
    (max : ℕ) (l : Bytes) (n : ℕ)
    → length l ≡ n
    → (if ltb max n then too_long else line (line_to_string l)) ≡ capped max l
capped_by max l n h = rw (← h) refl

end_of_stream :
    (max : ℕ) (buf : Bytes) → length buf ≤ max → line (line_to_string buf) ≡ capped max (buf ++ [])
end_of_stream max buf h = rw (append-nil buf) (ground (arith, h))

-- The first line, if it is not too long, and what stands behind it.
pub read_line-cut :
    (max : ℕ) (buf : Bytes) (chunks : List Chunk)
    → IsSound chunks
    → length buf ≤ max
    → ((read_line max buf chunks).0 ≡ ok (outcome max buf (cut (bytes_of chunks))))
      × (bytes_of (read_line max buf chunks).1 ≡ unwrap_or (cut (bytes_of chunks)).1 [])
      × IsSound (read_line max buf chunks).1
unfolding read_line cut
read_line-cut max [] [] h le = (refl, refl, tt)
read_line-cut max (b ∷ buf) [] h le = (ap ok (end_of_stream max (b ∷ buf) le), refl, tt)
read_line-cut max buf (broken ∷ r) h le = absurd h
read_line-cut max buf (chunk_of b s ∷ r) h le = elim (Option-cases (position is_newline (b ∷ s))) [
  | inr (pos, e) ↦
      rw (e, read_line)
        (rw (cut-append-some (b ∷ s) (bytes_of r) pos e) (
          ap ok (
              capped_by max (buf ++ take pos (b ∷ s)) (length buf + pos) (
                length-append buf (take pos (b ∷ s))
                ∙ ap (λ k. length buf + k) (length-take-position (b ∷ s) pos e))),
          (bytes_of-unread (drop (suc pos) (b ∷ s)) r).0,
          (bytes_of-unread (drop (suc pos) (b ∷ s)) r).1 h,
        ))
  | inl e ↦
      rw (e, read_line)
        (rw (cut-append-none (b ∷ s) (bytes_of r) e)
          (elim (Bool-cases (ltb max (length buf + length (b ∷ s)))) [
            | inl long ↦
                rw long
                  let (done, left, sound) = discard_to_newline-cut r h in
                    rw done (
                      ap ok (
                          sym (
                            outcome-too_long max buf (b ∷ s) (cut (bytes_of r)).0
                              (cut (bytes_of r)).1 (ground (arith, long)))),
                      left,
                      sound,
                    )
            | inr short ↦
                rw short
                  let (read, left, sound) =
                      read_line-cut max (buf ++ b ∷ s) r h
                        (ground (arith, short, length-append buf (b ∷ s))) in
                    (read ∙ ap ok (outcome-append max buf (b ∷ s) (cut (bytes_of r))), left, sound)
          ]))
]
