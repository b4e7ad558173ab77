-- ===== src/Sse/Lines.antt =====
-- The line loop of `process_new_chunk` (sse_parser.rs) against a recursion on the bytes.
use native.Mathlib.Numerals.{add-one}
use rust_mcp_sdk.Prelude.{
  ℕ, zero, suc, ◌≤◌, ◌≡◌, ◌≢◌, refl, sym, ap, Bool, none, some, List, [], ◌∷◌, ◌++◌, append_assoc,
  arith, length, take, drop, All, position, ◌==◌, if◌then◌else◌, Bool-cases, Option-cases, inl, inr,
}
use rust_mcp_sdk.Prelude.Utf8.{Bytes}
use rust_mcp_sdk.Sse.{line_feed, blank_line, take_lines, concat}

-- One more byte before the first line.
abbrev attach : ℕ → List Bytes × Bytes → List Bytes × Bytes
attach b ([], rest) = ([], b ∷ rest)
attach b (l ∷ ls, rest) = ((b ∷ l) ∷ ls, rest)

-- The complete lines of a buffer, and what follows the last of them.
pub split_lines : Bytes → List Bytes × Bytes
split_lines [] = ([], [])
split_lines (b ∷ s) =
    let (lines, rest) = split_lines s in
    if b == line_feed then ((b ∷ []) ∷ lines, rest) else attach b (lines, rest)

abbrev feeds : ℕ → Bool
feeds b = b == line_feed

split_lines-none : (s : Bytes) → position feeds s ≡ none → split_lines s ≡ ([], s)
unfolding split_lines
split_lines-none [] h = refl
split_lines-none (b ∷ s) h = ground (arith, split_lines-none s)

split_lines-some :
    (s : Bytes) (pos : ℕ)
    → position feeds s ≡ some pos
    → split_lines s
      ≡ (take (suc pos) s ∷ (split_lines (drop (suc pos) s)).0, (split_lines (drop (suc pos) s)).1)
unfolding split_lines
split_lines-some [] pos h = cc
split_lines-some (b ∷ s) zero h = ground arith
split_lines-some (b ∷ s) (suc pos) h = ground (arith, split_lines-some s pos)

length-drop-le : (n : ℕ) (s : Bytes) → length (drop n s) ≤ length s
length-drop-le zero s = omega arith
length-drop-le (suc n) [] = omega arith
length-drop-le (suc n) (b ∷ s) = omega (arith, length-drop-le n s)

length-drop-suc :
    (n fuel : ℕ) (s : Bytes) → s ≢ [] → length s ≤ suc fuel → length (drop (suc n) s) ≤ fuel
length-drop-suc n fuel [] h l = absurd (h refl)
length-drop-suc n fuel (b ∷ s) h l = omega (arith, length-drop-le n s)

position_not_nil : (s : Bytes) (pos : ℕ) → position feeds s ≡ some pos → s ≢ []
position_not_nil [] pos h = cc
position_not_nil (b ∷ s) pos h = λ e. cc

-- With the length of the buffer as fuel the loop takes all complete lines.
pub take_lines-eq-split_lines :
    (fuel : ℕ) (s : Bytes) → length s ≤ fuel → take_lines fuel s ≡ split_lines s
unfolding take_lines split_lines
take_lines-eq-split_lines zero [] h = refl
take_lines-eq-split_lines zero (b ∷ s) h = absurd (omega arith)
take_lines-eq-split_lines (suc fuel) s h = elim (Option-cases (position feeds s)) [
  | inl e ↦ rw (e, take_lines) (sym (split_lines-none s e))
  | inr (pos, e) ↦
      rw (e, take_lines)
        (rw (split_lines-some s pos e) (
          rw add-one (
            ap (λ (r : List Bytes × Bytes). (take (suc pos) s ∷ r.0, r.1))
              (take_lines-eq-split_lines fuel (drop (suc pos) s)
                (length-drop-suc pos fuel s (position_not_nil s pos e) h)))))
]

-- A line ends with its only line feed.
abbrev pub IsLine : Bytes → Type 0
IsLine [] = ⊥
IsLine (b ∷ []) = b ≡ line_feed
IsLine (b ∷ c ∷ s) = (b ≢ line_feed) × IsLine (c ∷ s)

IsLine-attach :
    (b : ℕ) (r : List Bytes × Bytes) → b ≢ line_feed → All IsLine r.0 → All IsLine (attach b r).0
IsLine-attach b ([], rest) h all = tt
IsLine-attach b ([] ∷ ls, rest) h all = absurd all.0
IsLine-attach b ((c ∷ l) ∷ ls, rest) h all = ((h, all.0), all.1)

pub split_lines-IsLine : (s : Bytes) → All IsLine (split_lines s).0
unfolding split_lines
split_lines-IsLine [] = tt
split_lines-IsLine (b ∷ s) = elim (Bool-cases (b == line_feed)) [
  | inl e ↦ rw e (ground arith, split_lines-IsLine s)
  | inr e ↦ rw e (IsLine-attach b (split_lines s) (ground arith) (split_lines-IsLine s))
]

split_lines-line :
    (l s : Bytes) → IsLine l → split_lines (l ++ s) ≡ (l ∷ (split_lines s).0, (split_lines s).1)
unfolding split_lines
split_lines-line [] s h = absurd h
split_lines-line (b ∷ []) s h = ground arith
split_lines-line (b ∷ c ∷ l) s h = ground (arith, split_lines-line (c ∷ l) s h.1, h.0)

pub split_lines-concat :
    (ls : List Bytes) (s : Bytes)
    → All IsLine ls
    → split_lines (concat ls ++ s) ≡ (ls ++ (split_lines s).0, (split_lines s).1)
split_lines-concat [] s h = refl
split_lines-concat (l ∷ ls) s h =
    rw
      (
        append_assoc l (concat ls) s,
        split_lines-line l (concat ls ++ s) h.0,
        split_lines-concat ls s h.1,
      )
      refl

attach_append :
    (b : ℕ) (r q : List Bytes × Bytes) (s : Bytes)
    → b ≢ line_feed
    → split_lines (r.1 ++ s) ≡ q
    → attach b (r.0 ++ q.0, q.1) ≡ (
      (attach b r).0 ++ (split_lines ((attach b r).1 ++ s)).0,
      (split_lines ((attach b r).1 ++ s)).1,
    )
unfolding split_lines
attach_append b ([], rest) q s h e = ground (arith, e)
attach_append b (l ∷ ls, rest) q s h e = rw e refl

-- More bytes complete more lines, and change none of those before them.
pub split_lines-append :
    (s t : Bytes)
    → split_lines (s ++ t) ≡ (
      (split_lines s).0 ++ (split_lines ((split_lines s).1 ++ t)).0,
      (split_lines ((split_lines s).1 ++ t)).1,
    )
unfolding split_lines
split_lines-append [] t = refl
split_lines-append (b ∷ s) t = elim (Bool-cases (b == line_feed)) [
  | inl e ↦ rw e (rw (split_lines-append s t) refl)
  | inr e ↦ rw e (
      rw (split_lines-append s t) (
        attach_append b (split_lines s) (split_lines ((split_lines s).1 ++ t)) t (ground arith)
          refl))
]

-- Lines behind one another, and a blank line at the end.
pub split_lines-message :
    (ls : List Bytes)
    → All IsLine ls
    → split_lines (concat ls ++ blank_line) ≡ (ls ++ blank_line ∷ [], [])
unfolding split_lines
split_lines-message ls h = split_lines-concat ls blank_line h
