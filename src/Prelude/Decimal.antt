-- ===== src/Prelude/Decimal.antt =====
-- `Display` and `FromStr` of the unsigned integers of Rust's standard library.
use Prim.Native.Nat.{ℕ, zero, suc, ◌+◌, ◌-◌, ◌*◌, ◌/◌, ◌%◌, ◌≤◌, ◌<◌}
use native.Mathlib.Omega.{arith}
use mathlib.Core.Path.{◌≡◌, refl, ◌∙◌}
use mathlib.Core.Logic.{◌⊎◌, inl, inr}
use mathlib.Core.Bool.{◌&&◌}
use mathlib.Core.List.{[], ◌∷◌}
use rust_mcp_sdk.Prelude.Tests.{◌==◌, leb, ltb, if◌then◌else◌, Bool-cases, ==_iff}
use rust_mcp_sdk.Prelude.Lists.{All}
use rust_mcp_sdk.Prelude.Text.{Text, codes}

-- `IntErrorKind`
pub data IntError : Type 0 where
  empty_text invalid_digit pos_overflow : IntError

pub data Parsed : Type 0 where
  parsed : ℕ → Parsed
  failed : IntError → Parsed

-- The digits of `n` in front of `rest`, the last digit first; the fuel is above `n`.
emit : ℕ → ℕ → Text → Text
emit zero n rest = rest
emit (suc fuel) n rest =
    let digits = (48 + n % 10) ∷ rest in
    let more = emit fuel (n / 10) digits in if n / 10 == 0 then digits else more

unfoldable pub to_decimal : ℕ → Text
unfolding emit
to_decimal n = emit (suc n) n []

-- The loop of `from_str_radix`, with its checked multiplication and addition.
scan : ℕ → ℕ → Text → Parsed
scan bound n [] = parsed n
scan bound n (c ∷ s) =
    let next = n * 10 + (c - 48) in
    let rest = scan bound next s in
    if leb 48 c && leb c 57
    then (if ltb next bound then rest else failed pos_overflow)
    else failed invalid_digit

-- `str::parse` into an unsigned integer below `bound`. One leading `+` is allowed, not alone.
unfoldable pub parse_uint : ℕ → Text → Parsed
unfolding scan
parse_uint bound [] = failed empty_text
parse_uint bound (c ∷ []) = if c == b'+' then failed invalid_digit else scan bound 0 (c ∷ [])
parse_uint bound (c ∷ d ∷ s) = if c == b'+' then scan bound 0 (d ∷ s) else scan bound 0 (c ∷ d ∷ s)

abbrev pub IsDigit : ℕ → Type 0
IsDigit c = (48 ≤ c) × (c ≤ 57)

emit-IsDigit : (fuel n : ℕ) (rest : Text) → All IsDigit rest → All IsDigit (emit fuel n rest)
unfolding emit
emit-IsDigit zero n rest h = h
emit-IsDigit (suc fuel) n rest h = elim (Bool-cases (n / 10 == 0)) [
  | inl e ↦ rw e ((omega arith, omega arith), h)
  | inr e ↦ rw e (emit-IsDigit fuel (n / 10) _ ((omega arith, omega arith), h))
]

-- A decimal print consists of digits.
pub to_decimal-IsDigit : (n : ℕ) → All IsDigit (to_decimal n)
unfolding to_decimal
to_decimal-IsDigit n = emit-IsDigit (suc n) n [] tt

abbrev IsCons : Text → Type 0
IsCons s = (c : ℕ) × (t : Text) × (s ≡ c ∷ t)

emit-IsCons : (fuel n d : ℕ) (rest : Text) → IsCons (emit fuel n (d ∷ rest))
unfolding emit
emit-IsCons zero n d rest = (d, rest, refl)
emit-IsCons (suc fuel) n d rest = elim (Bool-cases (n / 10 == 0)) [
  | inl e ↦ rw e (48 + n % 10, d ∷ rest, refl)
  | inr e ↦ rw e (emit-IsCons fuel (n / 10) (48 + n % 10) (d ∷ rest))
]

-- A decimal print is not empty.
pub to_decimal-IsCons : (n : ℕ) → (c : ℕ) × (t : Text) × (to_decimal n ≡ c ∷ t)
unfolding to_decimal emit
to_decimal-IsCons n = elim (Bool-cases (n / 10 == 0)) [
  | inl e ↦ rw e (48 + n % 10, [], refl)
  | inr e ↦ rw e (emit-IsCons n (n / 10) (48 + n % 10) [])
]

scan-emit :
    (bound fuel n : ℕ) (rest : Text)
    → n < fuel
    → n < bound
    → scan bound 0 (emit fuel n rest) ≡ scan bound n rest
unfolding emit scan
scan-emit bound zero n rest h b = absurd (omega arith)
scan-emit bound (suc fuel) n rest h b = elim (Bool-cases (n / 10 == 0)) [
  | inl e ↦ rw e (scan_digit 0 (ground arith))
  | inr e ↦ rw e (
      scan-emit bound fuel (n / 10) _ (ground arith) (omega arith)
      ∙ scan_digit (n / 10) (omega arith))
]
  where
    scan_digit :
        (m : ℕ) → m * 10 + n % 10 ≡ n → scan bound m ((48 + n % 10) ∷ rest) ≡ scan bound n rest
    scan_digit m e =
        let v : m * 10 + (48 + n % 10 - 48) ≡ n = omega (arith, e) in rw v (ground arith)

parse_uint-scan :
    (bound c : ℕ) (t : Text) → IsDigit c → parse_uint bound (c ∷ t) ≡ scan bound 0 (c ∷ t)
unfolding parse_uint scan
parse_uint-scan bound c [] h = ground arith
parse_uint-scan bound c (d ∷ t) h = ground arith

parse_uint_of_scan :
    (bound n c : ℕ) (s t : Text)
    → s ≡ c ∷ t
    → All IsDigit s
    → scan bound 0 s ≡ parsed n
    → parse_uint bound s ≡ parsed n
parse_uint_of_scan bound n c s t e digits h =
    let first : All IsDigit (c ∷ t) = rw e at digits in
    let read : scan bound 0 (c ∷ t) ≡ parsed n = rw e at h in
    rw e (parse_uint-scan bound c t first.0 ∙ read)

-- What is printed is read back, where it is in range.
pub parse_uint-to_decimal : (bound n : ℕ) → n < bound → parse_uint bound (to_decimal n) ≡ parsed n
unfolding to_decimal scan
parse_uint-to_decimal bound n h =
    let (c, t, e) = to_decimal-IsCons n in
    parse_uint_of_scan bound n c (emit (suc n) n []) t e (to_decimal-IsDigit n)
      (scan-emit bound (suc n) n [] (omega arith) h)

scan_bound : (bound n m : ℕ) (s : Text) → n < bound → scan bound n s ≡ parsed m → m < bound
unfolding scan
scan_bound bound n m [] h e = ground arith
scan_bound bound n m (c ∷ s) h e = ground (arith, scan_bound bound (n * 10 + (c - 48)) m s)

-- What is read is in range.
pub parse_uint_bound :
    (bound m : ℕ) (s : Text) → 0 < bound → parse_uint bound s ≡ parsed m → m < bound
unfolding parse_uint
parse_uint_bound bound m [] h e = cc
parse_uint_bound bound m (c ∷ []) h e = ground (arith, scan_bound bound 0 m (c ∷ []))
parse_uint_bound bound m (c ∷ d ∷ s) h e =
    ground (arith, scan_bound bound 0 m (c ∷ d ∷ s), scan_bound bound 0 m (d ∷ s))

-- One digit at least, and only digits; with a plus sign in front or without one.
abbrev AreDigits : Text → Type 0
AreDigits [] = ⊥
AreDigits (c ∷ s) = All IsDigit (c ∷ s)

abbrev pub IsNumber : Text → Type 0
IsNumber [] = ⊥
IsNumber (c ∷ s) = AreDigits (c ∷ s) ⊎ ((c ≡ b'+') × AreDigits s)

scan-IsDigit : (bound n m : ℕ) (s : Text) → scan bound n s ≡ parsed m → All IsDigit s
unfolding scan
scan-IsDigit bound n m [] h = tt
scan-IsDigit bound n m (c ∷ s) h = (
  (ground (arith, h), ground (arith, h)),
  scan-IsDigit bound (n * 10 + (c - 48)) m s (ground (arith, h)),
)

-- What is read is a number.
pub parse_uint-IsNumber : (bound m : ℕ) (s : Text) → parse_uint bound s ≡ parsed m → IsNumber s
unfolding parse_uint
parse_uint-IsNumber bound m [] h = cc
parse_uint-IsNumber bound m (c ∷ []) h = inl (scan-IsDigit bound 0 m (c ∷ []) (ground (arith, h)))
parse_uint-IsNumber bound m (c ∷ d ∷ s) h = elim (Bool-cases (c == b'+')) [
  | inl e ↦ inr ((==_iff c b'+').0 e, scan-IsDigit bound 0 m (d ∷ s) (ground (arith, h, e)))
  | inr e ↦ inl (scan-IsDigit bound 0 m (c ∷ d ∷ s) (ground (arith, h, e)))
]

to_decimal_example : to_decimal 12045 ≡ codes "12045"
unfolding to_decimal
to_decimal_example = refl
