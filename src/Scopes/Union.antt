-- ===== src/Scopes/Union.antt =====
-- The words of a union of scopes (crates/rust-mcp-sdk/src/auth/client_auth/scope.rs).
use rust_mcp_sdk.Prelude.{
  ◌≡◌, refl, sym, ap, ◌∙◌, Bool, true, false, not, ◌||◌, Option, none, some, List, [], ◌∷◌, ◌++◌,
  All, any, all, is_empty, arith, Bool-cases, inl, inr, append_assoc, append-nil,
}
use rust_mcp_sdk.Prelude.Text.{Text, codes, is_whitespace, text_beq, text_beq_iff, text_leb}
use rust_mcp_sdk.Prelude.Split.{join}
use rust_mcp_sdk.Scopes.{
  words_from, split_whitespace, insert_scope, insert_all, scope_words, joined_set, union_scopes,
}

-- A word is not empty and has no white space.
abbrev IsDense : Text → Type 0
IsDense s = all (λ c. not (is_whitespace c)) s ≡ true

abbrev IsWord : Text → Type 0
IsWord s = (is_empty s ≡ false) × IsDense s

abbrev pub has_word : Text → List Text → Bool
has_word w words = any (text_beq w) words

IsDense-append : (s t : Text) → IsDense s → IsDense t → IsDense (s ++ t)
IsDense-append [] t h g = g
IsDense-append (c ∷ s) t h g = ground (arith, h, IsDense-append s t)

words_from-IsWord : (word s : Text) → IsDense word → All IsWord (words_from word s)
unfolding words_from
words_from-IsWord word [] h = elim (Bool-cases (is_empty word)) [
  | inl e ↦ rw e tt
  | inr e ↦ rw e ((e, h), tt)
]
words_from-IsWord word (c ∷ s) h = elim (Bool-cases (is_whitespace c)) [
  | inr e ↦ rw e (words_from-IsWord (word ++ c ∷ []) s (IsDense-append word (c ∷ []) h (rw e refl)))
  | inl e ↦
      let others = words_from-IsWord [] s refl in
      rw e
        (elim (Bool-cases (is_empty word)) [ inl q ↦ rw q others | inr q ↦ rw q ((q, h), others) ])
]

-- White space ends a word.
words_from-append :
    (word w s : Text) → IsDense w → words_from word (w ++ s) ≡ words_from (word ++ w) s
unfolding words_from
words_from-append word [] s h = ap (λ t. words_from t s) (sym (append-nil word))
words_from-append word (c ∷ w) s h = elim (Bool-cases (is_whitespace c)) [
  | inl e ↦ absurd (ground (arith, e, h))
  | inr e ↦ rw e (
      words_from-append (word ++ c ∷ []) w s (ground (arith, h))
      ∙ ap (λ t. words_from t s) (append_assoc word (c ∷ []) w))
]

words-join : (l : List Text) → All IsWord l → split_whitespace (join (codes " ") l) ≡ l
unfolding words_from is_whitespace
words-join [] h = refl
words-join (w ∷ []) h =
    ap split_whitespace (sym (append-nil w)) ∙ (words_from-append [] w [] h.0.1 ∙ rw h.0.0 refl)
words-join (w ∷ v ∷ l) h =
    words_from-append [] w (32 ∷ join (codes " ") (v ∷ l)) h.0.1
    ∙ rw h.0.0 (ap (λ r. w ∷ r) (words-join (v ∷ l) h.1))

has_word-insert_scope :
    (w s : Text) (set : List Text)
    → has_word w (insert_scope s set) ≡ (text_beq w s || has_word w set)
unfolding insert_scope
has_word-insert_scope w s [] = refl
has_word-insert_scope w s (t ∷ set) =
    ground
      (arith, text_beq_iff s t, text_beq_iff w s, text_beq_iff w t, has_word-insert_scope w s set)

insert_scope-IsWord :
    (s : Text) (set : List Text) → IsWord s → All IsWord set → All IsWord (insert_scope s set)
unfolding insert_scope
insert_scope-IsWord s [] h g = (h, tt)
insert_scope-IsWord s (t ∷ set) h g = elim (Bool-cases (text_beq s t)) [
  | inl e ↦ rw e g
  | inr e ↦ rw e (elim (Bool-cases (text_leb s t)) [
    | inl q ↦ rw q (h, g)
    | inr q ↦ rw q (g.0, insert_scope-IsWord s set h g.1)
  ])
]

-- The set after the words are inserted.
insert_all-words :
    (w : Text) (words set : List Text)
    → All IsWord words
    → All IsWord set
    → All IsWord (insert_all words set)
      × (has_word w (insert_all words set) ≡ (has_word w words || has_word w set))
insert_all-words w [] set h g = (g, refl)
insert_all-words w (s ∷ words) set h g =
    let next =
      insert_all-words w words (insert_scope s set) h.1 (insert_scope-IsWord s set h.0 g) in
    let inserted = has_word-insert_scope w s set in
    rw h.0.0 (next.0, next.1 ∙ ground (arith, inserted))

scope_words-IsWord : (scope : Option Text) → All IsWord (scope_words scope)
scope_words-IsWord none = tt
scope_words-IsWord (some s) = words_from-IsWord [] s refl

scope_words-joined_set : (set : List Text) → All IsWord set → scope_words (joined_set set) ≡ set
scope_words-joined_set [] h = refl
scope_words-joined_set (s ∷ set) h = words-join (s ∷ set) h

-- A word is in the union of two scopes exactly if it is in one of them, whatever the white space
-- between the words is.
pub has_word-union_scopes :
    (w : Text) (prior challenged : Option Text)
    → has_word w (scope_words (union_scopes prior challenged))
      ≡ (has_word w (scope_words prior) || has_word w (scope_words challenged))
unfolding union_scopes
has_word-union_scopes w prior challenged =
    let first = insert_all-words w (scope_words prior) [] (scope_words-IsWord prior) tt in
    let second =
      insert_all-words w (scope_words challenged) (insert_all (scope_words prior) [])
        (scope_words-IsWord challenged) first.0 in
    ap (has_word w) (scope_words-joined_set _ second.0) ∙ (second.1 ∙ ground (arith, first.1))
