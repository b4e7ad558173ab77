-- ===== src/Events/Ids.antt =====
-- The format of event ids (in_memory_event_store.rs): printing and parsing.
use rust_mcp_sdk.Prelude.{
  ℕ, ◌≡◌, refl, ◌≢◌, Bool, false, List, [], ◌∷◌, ◌++◌, arith, any, All, is_empty, ◌<◌, ◌^◌, ◌==◌,
}
use mathlib.Core.Path.{subst}
use rust_mcp_sdk.Prelude.Text.{Text, codes}
use rust_mcp_sdk.Prelude.Split.{split, join, join-split}
use rust_mcp_sdk.Prelude.Decimal.{
  parsed, IsDigit, to_decimal, to_decimal-IsCons, to_decimal-IsDigit, parse_uint,
  parse_uint-to_decimal, parse_uint_bound, IsNumber, parse_uint-IsNumber,
}
use rust_mcp_sdk.Events.{ok, id_separator, generate_event_id, parse_event_id, parse_parts}

-- A session or stream id that the format carries: not empty, with no full stop and no NUL.
pub record IsIdText (s : Text) : Type 0 where
  pub not_empty : is_empty s ≡ false
  pub no_stop : All (λ c. c ≢ b'.') s
  pub no_nul : All (λ c. c ≢ 0) s

split-append :
    (s t : Text)
    → All (λ c. c ≢ b'.') s
    → split id_separator (s ++ (id_separator ++ t)) ≡ s ∷ split id_separator t
unfolding split
split-append [] t h = refl
split-append (c ∷ []) t h = ground arith
split-append (c ∷ d ∷ s) t h = ground (arith, split-append (d ∷ s) t h.1, h.1.0)

split_single : (s : Text) → All (λ c. c ≢ b'.') s → split id_separator s ≡ s ∷ []
unfolding split
split_single [] h = refl
split_single (c ∷ []) h = ground arith
split_single (c ∷ d ∷ s) h = ground (arith, split_single (d ∷ s) h.1, h.1.0)

abbrev has_nul : Text → Bool
has_nul = any (λ c. c == 0)

has_nul-append : (s t : Text) → All (λ c. c ≢ 0) s → has_nul (s ++ t) ≡ has_nul t
has_nul-append [] t h = refl
has_nul-append (c ∷ s) t h = ground (arith, has_nul-append s t h.1, h.0)

digits_no_stop : (s : Text) → All IsDigit s → All (λ c. c ≢ b'.') s
digits_no_stop [] h = tt
digits_no_stop (c ∷ s) h = (omega arith, digits_no_stop s h.1)

has_nul-digits : (s : Text) → All IsDigit s → has_nul s ≡ false
has_nul-digits [] h = refl
has_nul-digits (c ∷ s) h = ground (arith, has_nul-digits s h.1, h.0)

is_empty-append : (s t : Text) → is_empty s ≡ false → is_empty (s ++ t) ≡ false
is_empty-append [] t h = cc
is_empty-append (c ∷ s) t h = refl

is_empty-to_decimal : (n : ℕ) → is_empty (to_decimal n) ≡ false
is_empty-to_decimal n = let (c, t, e) = to_decimal-IsCons n in rw e

module _ (s t : Text) (n : ℕ) (hs : IsIdText s) (ht : IsIdText t) where
  split-generate : split id_separator (generate_event_id s t n) ≡ s ∷ t ∷ to_decimal n ∷ []
  unfolding generate_event_id
  split-generate = rw (
    split-append s _ hs.no_stop,
    split-append t _ ht.no_stop,
    split_single (to_decimal n) (digits_no_stop _ (to_decimal-IsDigit n)),
  )

  has_nul-generate : has_nul (generate_event_id s t n) ≡ false
  unfolding generate_event_id
  has_nul-generate =
      rw (has_nul-append s _ hs.no_nul)
        (rw (has_nul-append t _ ht.no_nul) (has_nul-digits _ (to_decimal-IsDigit n)))

  is_empty-generate : is_empty (generate_event_id s t n) ≡ false
  unfolding generate_event_id
  is_empty-generate = is_empty-append s _ hs.not_empty

  parse_parts-generate : n < 2 ^ 128 → parse_parts (s ∷ t ∷ to_decimal n ∷ []) ≡ ok (s, t, n)
  unfolding parse_parts
  parse_parts-generate h = ground (
    arith,
    hs.not_empty,
    ht.not_empty,
    is_empty-to_decimal n,
    parse_uint-to_decimal (2 ^ 128) n h,
  )

-- Parsing a generated event id returns its session, stream and time stamp, where both ids are not
-- empty and hold no full stop and no NUL, and the time stamp fits 128 bits.
pub parse_event_id-generate_event_id :
    (s t : Text) (n : ℕ)
    → IsIdText s
    → IsIdText t
    → n < 2 ^ 128
    → parse_event_id (generate_event_id s t n) ≡ ok (s, t, n)
unfolding parse_event_id
parse_event_id-generate_event_id s t n hs ht h = rw (is_empty-generate s t n hs ht) (
    rw (has_nul-generate s t n hs ht)
      (rw (split-generate s t n hs ht) (parse_parts-generate s t n hs ht h)))

-- `event_id` is the two ids and a decimal number, with the separators between them.
pub record IsEventId (event_id s t : Text) (n : ℕ) : Type 0 where
  pub number : Text
  pub whole : event_id ≡ s ++ (id_separator ++ (t ++ (id_separator ++ number)))
  pub is_number : IsNumber number
  pub read : parse_uint (2 ^ 128) number ≡ parsed n
  pub session_not_empty : is_empty s ≡ false
  pub stream_not_empty : is_empty t ≡ false
  pub in_range : n < 2 ^ 128

parse_parts_three :
    (a b c s t : Text) (n : ℕ)
    → parse_parts (a ∷ b ∷ c ∷ []) ≡ ok (s, t, n)
    → (a ≡ s)
      × (b ≡ t)
      × (parse_uint (2 ^ 128) c ≡ parsed n)
      × (is_empty s ≡ false)
      × (is_empty t ≡ false)
unfolding parse_parts
parse_parts_three a b c s t n h = ground arith

parse_parts-IsEventId :
    (parts : List Text) (s t : Text) (n : ℕ)
    → parse_parts parts ≡ ok (s, t, n)
    → IsEventId (join id_separator parts) s t n
parse_parts-IsEventId [] s t n h = unfold parse_parts in cc h
parse_parts-IsEventId (a ∷ []) s t n h = unfold parse_parts in cc h
parse_parts-IsEventId (a ∷ b ∷ []) s t n h = unfold parse_parts in cc h
parse_parts-IsEventId (a ∷ b ∷ c ∷ d ∷ l) s t n h = unfold parse_parts in cc h
parse_parts-IsEventId (a ∷ b ∷ c ∷ []) s t n h =
    let (ha, hb, hc, hs, ht) = parse_parts_three a b c s t n h in
    record {
      number = c;
      whole = rw (ha, hb);
      is_number = parse_uint-IsNumber (2 ^ 128) n c hc;
      read = hc;
      session_not_empty = hs;
      stream_not_empty = ht;
      in_range = parse_uint_bound (2 ^ 128) n c (omega arith) hc;
    }

parse_event_id-parts :
    (event_id s t : Text) (n : ℕ)
    → parse_event_id event_id ≡ ok (s, t, n)
    → parse_parts (split id_separator event_id) ≡ ok (s, t, n)
unfolding parse_event_id
parse_event_id-parts event_id s t n h = ground arith

-- An event id that is accepted consists of the session, the stream and the digits of the time stamp,
-- with or without a plus sign in front of them, and with the separators between the three; both ids are not
-- empty, and the number fits 128 bits.
pub parse_event_id-IsEventId :
    (event_id s t : Text) (n : ℕ)
    → parse_event_id event_id ≡ ok (s, t, n)
    → IsEventId event_id s t n
parse_event_id-IsEventId event_id s t n h =
    subst (λ (e : Text). IsEventId e s t n) (join-split b'-' (codes ".-") event_id)
      (parse_parts-IsEventId _ s t n (parse_event_id-parts event_id s t n h))
