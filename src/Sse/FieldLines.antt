-- ===== src/Sse/FieldLines.antt =====
-- The fields of one printed event, read back: `fmt` of sse_event.rs and `parse_sse_message` of
-- sse_parser.rs.
use rust_mcp_sdk.Prelude.{
  ℕ, ◌<◌, ◌^◌, ◌≡◌, ◌≢◌, refl, sym, ap, ◌∙◌, true, false, ◌||◌, Option, none, some, List, [], ◌∷◌,
  ◌++◌, append-nil, arith, is_empty, is_some, All, All-append,
}
use rust_mcp_sdk.Prelude.Text.{
  Text, codes, trim, trim_start_by, trim_end_by, is_whitespace, text_beq,
}
use rust_mcp_sdk.Prelude.Split.{split, starts_with}
use rust_mcp_sdk.Prelude.Utf8.{Bytes, IsAscii, from_utf8_ascii, from_utf8_lossy_ascii}
use rust_mcp_sdk.Prelude.Decimal.{IsDigit, to_decimal, to_decimal-IsDigit}
use rust_mcp_sdk.Sse.{
  SseEvent, Fields, Field, data_field, event_field, id_field, retry_field, no_fields, add_field,
  classify, read_fields, blank_line, written_line, event_lines, text_lines, retry_lines, text_field,
  data_part,
}

-- A value that `fmt` writes on a line of its own, and that trimming leaves as it is.
pub record IsFieldText (s : Text) : Type 0 where
  pub ascii : IsAscii s
  pub no_feed : All (λ c. c ≢ 10) s
  pub trimmed : trim (s ++ blank_line) ≡ s

-- One line of data.
pub record IsDataText (s : Text) : Type 0 where
  pub ascii : IsAscii s
  pub no_feed : All (λ c. c ≢ 10) s
  pub not_empty : is_empty s ≡ false

abbrev pub IfSome : (ℕ → Type 0) → Option ℕ → Type 0
IfSome P none = Unit
IfSome P (some a) = P a

abbrev pub IfSomeText : (Text → Type 0) → Option Text → Type 0
IfSomeText P none = Unit
IfSomeText P (some a) = P a

-- An event that a line for each field can carry, with at least one field.
pub record IsPrintable (e : SseEvent) : Type 0 where
  pub event_text : IfSomeText IsFieldText e.event
  pub id_text : IfSomeText IsFieldText e.id
  pub data_text : IfSomeText IsDataText e.data_bytes
  pub retry_range : IfSome (λ n. n < 2 ^ 64) e.retry
  pub some_field :
      (is_some e.event || is_some e.id || is_some e.data_bytes || is_some e.retry) ≡ true

-- What is read back: the parser leaves the line feed of a data line in the data.
abbrev pub with_feed : Option Text → Option Text
with_feed none = none
with_feed (some s) = some (s ++ blank_line)

abbrev pub echo : SseEvent → SseEvent
echo e = record e { data_bytes = with_feed e.data_bytes }

-- Trimming digits.
not_space : (c : ℕ) → IsDigit c → is_whitespace c ≡ false
unfolding is_whitespace
not_space c h = ground arith

trim_end-digits :
    (s t : Text)
    → All IsDigit s
    → trim_end_by is_whitespace t ≡ []
    → trim_end_by is_whitespace (s ++ t) ≡ s
trim_end-digits [] t h e = e
trim_end-digits (c ∷ s) t h e = rw (not_space c h.0) (rw (trim_end-digits s t h.1 e) refl)

trim-digits :
    (s t : Text)
    → All IsDigit s
    → trim_end_by is_whitespace t ≡ []
    → trim_start_by is_whitespace t ≡ []
    → trim (s ++ t) ≡ s
unfolding trim
trim-digits [] t h e b = rw b refl
trim-digits (c ∷ s) t h e b = rw (not_space c h.0) (trim_end-digits (c ∷ s) t h e)

IsAscii-digits : (s : Text) → All IsDigit s → IsAscii s
IsAscii-digits [] h = tt
IsAscii-digits (c ∷ s) h = (omega arith, IsAscii-digits s h.1)

no_feed-digits : (s : Text) → All IsDigit s → All (λ c. c ≢ 10) s
no_feed-digits [] h = tt
no_feed-digits (c ∷ s) h = (omega arith, no_feed-digits s h.1)

-- A number is printed as such a value.
pub to_decimal-IsFieldText : (n : ℕ) → IsFieldText (to_decimal n)
to_decimal-IsFieldText n = record {
  ascii = IsAscii-digits _ (to_decimal-IsDigit n);
  no_feed = no_feed-digits _ (to_decimal-IsDigit n);
  trimmed =
      trim-digits (to_decimal n) blank_line (to_decimal-IsDigit n) (unfold is_whitespace in refl)
        (unfold is_whitespace in refl);
}

pub trim-to_decimal : (n : ℕ) → trim (to_decimal n) ≡ to_decimal n
trim-to_decimal n =
    ap trim (sym (append-nil (to_decimal n)))
    ∙ trim-digits (to_decimal n) [] (to_decimal-IsDigit n) refl refl

-- One line, by its key.
module _ (v : Text) where
  classify_data : classify (written_line "data: " v) ≡ data_field (v ++ blank_line)
  unfolding classify starts_with
  classify_data = refl

  classify_event : classify (written_line "event: " v) ≡ event_field (trim (v ++ blank_line))
  unfolding classify starts_with text_beq
  classify_event = refl

  classify_id : classify (written_line "id: " v) ≡ id_field (trim (v ++ blank_line))
  unfolding classify starts_with text_beq
  classify_id = refl

  classify_retry : classify (written_line "retry: " v) ≡ retry_field (trim (v ++ blank_line))
  unfolding classify starts_with text_beq
  classify_retry = refl

pub IsAscii-line :
    (prefix v : Text) → IsAscii prefix → IsAscii v → IsAscii (prefix ++ (v ++ blank_line))
IsAscii-line prefix v hp hv =
    All-append (λ c. c < 128) prefix _ hp (All-append (λ c. c < 128) v blank_line hv (omega arith))

read_cons :
    (f : Fields) (line : Bytes) (more : List Bytes) (field : Field)
    → IsAscii line
    → classify line ≡ field
    → read_fields f (line ∷ more) ≡ read_fields (add_field f field) more
unfolding read_fields
read_cons f line more field h e = rw (from_utf8_lossy_ascii line h) (rw e refl)

is_blank-line : (v : Text) → is_empty v ≡ false → text_beq (v ++ blank_line) blank_line ≡ false
unfolding text_beq
is_blank-line [] h = cc
is_blank-line (c ∷ []) h = ground arith
is_blank-line (c ∷ d ∷ v) h = ground arith

is_empty-line : (v : Text) → is_empty (v ++ blank_line) ≡ false
is_empty-line [] = refl
is_empty-line (c ∷ v) = refl

module _ (f : Fields) (v : Text) (more : List Bytes) where
  read_id :
      IsFieldText v
      → read_fields f (written_line "id: " v ∷ more) ≡ read_fields (record f { id = some v }) more
  unfolding add_field
  read_id h =
      read_cons f _ more (id_field v) (IsAscii-line (codes "id: ") v (omega arith) h.ascii)
        (classify_id v ∙ ap id_field h.trimmed)

  read_event :
      IsFieldText v
      → read_fields f (written_line "event: " v ∷ more)
        ≡ read_fields (record f { event = some v }) more
  unfolding add_field
  read_event h =
      read_cons f _ more (event_field v) (IsAscii-line (codes "event: ") v (omega arith) h.ascii)
        (classify_event v ∙ ap event_field h.trimmed)

  read_retry :
      IsFieldText v
      → read_fields f (written_line "retry: " v ∷ more)
        ≡ read_fields (record f { retry = some v }) more
  unfolding add_field
  read_retry h =
      read_cons f _ more (retry_field v) (IsAscii-line (codes "retry: ") v (omega arith) h.ascii)
        (classify_retry v ∙ ap retry_field h.trimmed)

  read_data :
      IsDataText v
      → read_fields f (written_line "data: " v ∷ more)
        ≡ read_fields
            (record f { data_parts = f.data_parts ++ (v ++ blank_line) ∷ []; saw_data_line = true })
            more
  unfolding add_field
  read_data h =
      read_cons f _ more (data_field (v ++ blank_line))
        (IsAscii-line (codes "data: ") v (omega arith) h.ascii) (classify_data v)
      ∙ rw (is_empty-line v, is_blank-line v h.not_empty) refl

split_single : (t : Text) → All (λ c. c ≢ 10) t → split blank_line t ≡ t ∷ []
unfolding split
split_single [] h = refl
split_single (c ∷ t) h = ground (arith, split_single t h.1, h.0)

text_lines_single : (s : Text) → All (λ c. c ≢ 10) s → is_empty s ≡ false → text_lines s ≡ s ∷ []
unfolding text_lines
text_lines_single s h e = rw (split_single s h) (rw e refl)

abbrev pub plain_lines : SseEvent → List Text
plain_lines e =
    retry_lines e.retry
    ++ (text_field "id: " e.id
        ++ (text_field "event: " e.event ++ text_field "data: " e.data_bytes))

data_part-eq-text_field :
    (d : Option Bytes) → IfSomeText IsDataText d → data_part d ≡ text_field "data: " d
data_part-eq-text_field none h = refl
data_part-eq-text_field (some d) h =
    rw (from_utf8_ascii d h.ascii) (rw (text_lines_single d h.no_feed h.not_empty) refl)

-- A printable event has one line for each field.
pub event_lines-eq-plain_lines : (e : SseEvent) → IsPrintable e → event_lines e ≡ plain_lines e
unfolding event_lines
event_lines-eq-plain_lines e h = rw (data_part-eq-text_field e.data_bytes h.data_text) refl

abbrev pub retry_text : Option ℕ → Option Text
retry_text none = none
retry_text (some n) = some (to_decimal n)

abbrev pub parts : Option Text → List Text
parts none = []
parts (some d) = (d ++ blank_line) ∷ []

module _ (more : List Bytes) where
  retry_part :
      (r : Option ℕ)
      → read_fields no_fields (retry_lines r ++ more)
        ≡ read_fields (record no_fields { retry = retry_text r }) more
  retry_part none = refl
  retry_part (some n) = read_retry no_fields (to_decimal n) more (to_decimal-IsFieldText n)

  id_part :
      (f : Fields) (v : Option Text)
      → f.id ≡ none
      → IfSomeText IsFieldText v
      → read_fields f (text_field "id: " v ++ more) ≡ read_fields (record f { id = v }) more
  id_part f none e h = rw (← e) refl
  id_part f (some v) e h = read_id f v more h

  event_part :
      (f : Fields) (v : Option Text)
      → f.event ≡ none
      → IfSomeText IsFieldText v
      → read_fields f (text_field "event: " v ++ more) ≡ read_fields (record f { event = v }) more
  event_part f none e h = rw (← e) refl
  event_part f (some v) e h = read_event f v more h

abbrev pub read_back : SseEvent → Fields
read_back e = record {
  event = e.event;
  id = e.id;
  retry = retry_text e.retry;
  data_parts = parts e.data_bytes;
  saw_data_line = is_some e.data_bytes;
}

data_end :
    (v i : Option Text) (r : Option Text) (d : Option Text)
    → IfSomeText IsDataText d
    → read_fields
        (record { event = v; id = i; retry = r; data_parts = []; saw_data_line = false })
        (text_field "data: " d)
      ≡ record { event = v; id = i; retry = r; data_parts = parts d; saw_data_line = is_some d }
unfolding read_fields
data_end v i r none h = refl
data_end v i r (some d) h =
    read_data (record { event = v; id = i; retry = r; data_parts = []; saw_data_line = false }) d []
      h

-- The loop over the lines of a printable event finds its fields.
pub read_fields-plain_lines :
    (e : SseEvent) → IsPrintable e → read_fields no_fields (plain_lines e) ≡ read_back e
read_fields-plain_lines e h =
    retry_part _ e.retry
    ∙ id_part _ (record no_fields { retry = retry_text e.retry }) e.id refl h.id_text
    ∙ event_part _ (record no_fields { retry = retry_text e.retry; id = e.id }) e.event refl
        h.event_text
    ∙ data_end e.event e.id (retry_text e.retry) e.data_bytes h.data_text
