-- ===== src/Reader/Cuts.antt =====
-- Where the first line of some bytes ends (crates/rust-mcp-transport/src/mcp_stream.rs).
use rust_mcp_sdk.Prelude.{
  ℕ, suc, ◌≡◌, refl, ap, ◌∙◌, true, Option, none, some, List, [], ◌∷◌, ◌++◌, take, drop, position,
  arith, if◌then◌else◌, Bool-cases, Option-cases, inl, inr, unwrap_or,
}
use rust_mcp_sdk.Prelude.Utf8.{Bytes}
use rust_mcp_sdk.Reader.{Chunk, chunk_of, broken, is_newline, unread, discard_to_newline}

-- The lines of some bytes: what stands between line feeds, and at the end if that is not empty.
abbrev push_byte : ℕ → List Bytes → List Bytes
push_byte b [] = (b ∷ []) ∷ []
push_byte b (l ∷ ls) = (b ∷ l) ∷ ls

unfoldable pub byte_lines : Bytes → List Bytes
byte_lines [] = []
byte_lines (b ∷ s) = let rest = byte_lines s in if is_newline b then [] ∷ rest else push_byte b rest

-- The first line, and what stands behind its line feed if it has one.
unfoldable pub cut : Bytes → Bytes × Option Bytes
cut [] = ([], none)
cut (b ∷ s) = let rest = cut s in if is_newline b then ([], some s) else (b ∷ rest.0, rest.1)

-- What the stream still gives, and whether it gives no error.
abbrev pub bytes_of : List Chunk → Bytes
bytes_of [] = []
bytes_of (broken ∷ r) = bytes_of r
bytes_of (chunk_of b s ∷ r) = (b ∷ s) ++ bytes_of r

abbrev pub IsSound : List Chunk → Type 0
IsSound [] = Unit
IsSound (broken ∷ r) = ⊥
IsSound (chunk_of b s ∷ r) = IsSound r

pub bytes_of-unread :
    (s : Bytes) (r : List Chunk)
    → (bytes_of (unread s r) ≡ s ++ bytes_of r) × (IsSound r → IsSound (unread s r))
bytes_of-unread [] r = (refl, λ h. h)
bytes_of-unread (b ∷ s) r = (refl, λ h. h)

-- Without a line feed in the first part, and with the first one in it.
pub cut-append-none :
    (s t : Bytes) → position is_newline s ≡ none → cut (s ++ t) ≡ (s ++ (cut t).0, (cut t).1)
unfolding cut
cut-append-none [] t h = refl
cut-append-none (b ∷ s) t h = ground (arith, cut-append-none s t)

pub cut-append-some :
    (s t : Bytes) (pos : ℕ)
    → position is_newline s ≡ some pos
    → cut (s ++ t) ≡ (take pos s, some (drop (suc pos) s ++ t))
unfolding cut
cut-append-some [] t pos h = cc
cut-append-some (b ∷ s) t pos h = elim (Bool-cases (is_newline b)) [
  | inl e ↦ ground (arith, e, h)
  | inr e ↦ elim (Option-cases (position is_newline s)) [
    | inl n ↦ ground (arith, e, h, n)
    | inr (i, n) ↦ ground (arith, e, h, n, cut-append-some s t i n)
  ]
]

abbrev pub byte_lines_of_cut : Bytes × Option Bytes → List Bytes
byte_lines_of_cut ([], none) = []
byte_lines_of_cut (b ∷ l, none) = (b ∷ l) ∷ []
byte_lines_of_cut (l, some rest) = l ∷ byte_lines rest

push_byte_of_cut :
    (b : ℕ) (c : Bytes × Option Bytes)
    → push_byte b (byte_lines_of_cut c) ≡ byte_lines_of_cut (b ∷ c.0, c.1)
push_byte_of_cut b ([], none) = refl
push_byte_of_cut b (a ∷ l, none) = refl
push_byte_of_cut b (l, some rest) = refl

pub byte_lines-cut : (s : Bytes) → byte_lines s ≡ byte_lines_of_cut (cut s)
unfolding byte_lines cut
byte_lines-cut [] = refl
byte_lines-cut (b ∷ s) = elim (Bool-cases (is_newline b)) [
  | inl e ↦ rw e refl
  | inr e ↦ rw e (ap (push_byte b) (byte_lines-cut s) ∙ push_byte_of_cut b (cut s))
]

-- What is left of the stream after the rest of a line is discarded.
pub discard_to_newline-cut :
    (r : List Chunk)
    → IsSound r
    → ((discard_to_newline r).0 ≡ true)
      × (bytes_of (discard_to_newline r).1 ≡ unwrap_or (cut (bytes_of r)).1 [])
      × IsSound (discard_to_newline r).1
unfolding discard_to_newline cut
discard_to_newline-cut [] h = (refl, refl, tt)
discard_to_newline-cut (broken ∷ r) h = absurd h
discard_to_newline-cut (chunk_of b s ∷ r) h = elim (Option-cases (position is_newline (b ∷ s))) [
  | inl e ↦
      rw (e, discard_to_newline)
        (rw (cut-append-none (b ∷ s) (bytes_of r) e) (discard_to_newline-cut r h))
  | inr (pos, e) ↦
      rw (e, discard_to_newline)
        (rw (cut-append-some (b ∷ s) (bytes_of r) pos e) (
          refl,
          (bytes_of-unread (drop (suc pos) (b ∷ s)) r).0,
          (bytes_of-unread (drop (suc pos) (b ∷ s)) r).1 h,
        ))
]
