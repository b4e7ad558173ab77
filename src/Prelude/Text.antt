-- ===== src/Prelude/Text.antt =====
-- Texts as lists of code points, so that code which walks a text is structural.
use Prim.Native.Char.{code}
use native.Mathlib.Omega.{arith}
use mathlib.Core.Path.{◌≡◌, refl}
use mathlib.Core.Logic.{◌↔◌}
use mathlib.Core.Bool.{Bool, true, false, ◌&&◌, ◌||◌}
use mathlib.Core.Option.{Option, none, some}
use mathlib.Core.List.{List, [], ◌∷◌, map}
use Prim.Native.Nat.{ℕ, ◌+◌}
use Prim.Native.String.{String}
use rust_mcp_sdk.Prelude.Tests.{Eq, ◌==◌, leb, if◌then◌else◌}

-- A `str`, by its code points (of a text in ASCII, its bytes).
abbrev pub Text : Type 0
Text = List ℕ

-- The code points of a literal.
abbrev pub codes : String → Text
codes String.[] = []
codes (String.◌∷◌ c s) = code c ∷ codes s

unfoldable pub text_beq : Text → Text → Bool
text_beq [] [] = true
text_beq (a ∷ s) (b ∷ t) = a == b && text_beq s t
text_beq _ _ = false

pub text_beq_iff : (s t : Text) → (text_beq s t ≡ true) ↔ (s ≡ t)
unfolding text_beq
text_beq_iff [] [] = (λ h. refl, λ h. refl)
text_beq_iff [] (b ∷ t) = (λ h. cc, λ h. cc)
text_beq_iff (a ∷ s) [] = (λ h. cc, λ h. cc)
text_beq_iff (a ∷ s) (b ∷ t) =
    (λ h. ground (arith, text_beq_iff s t), λ h. ground (arith, text_beq_iff s t))

unfoldable pub option_text_beq : Option Text → Option Text → Bool
option_text_beq none none = true
option_text_beq (some s) (some t) = text_beq s t
option_text_beq _ _ = false

pub option_text_beq_iff : (s t : Option Text) → (option_text_beq s t ≡ true) ↔ (s ≡ t)
unfolding option_text_beq
option_text_beq_iff none none = (λ h. refl, λ h. refl)
option_text_beq_iff none (some t) = (λ h. cc, λ h. cc)
option_text_beq_iff (some s) none = (λ h. cc, λ h. cc)
option_text_beq_iff (some s) (some t) =
    (λ h. ground (arith, text_beq_iff s t), λ h. ground (arith, text_beq_iff s t))

instance abbrev pub text_eq : Eq Text
text_eq = record { beq = text_beq; beq_iff = text_beq_iff }

-- `char::is_whitespace`: the code points with the property White_Space.
unfoldable pub is_whitespace : ℕ → Bool
is_whitespace c =
    (leb 9 c && leb c 13)
    || c == 32
    || c == 133
    || c == 160
    || c == 5760
    || (leb 8192 c && leb c 8202)
    || c == 8232
    || c == 8233
    || c == 8239
    || c == 8287
    || c == 12288

-- `str::trim_start`, `str::trim_end` and `str::trim`.
abbrev pub trim_start_by : (ℕ → Bool) → Text → Text
trim_start_by p [] = []
trim_start_by p (c ∷ s) = if p c then trim_start_by p s else c ∷ s

abbrev pub trim_end_by : (ℕ → Bool) → Text → Text
trim_end_by p [] = []
trim_end_by p (c ∷ s) = cons_unless (p c) c (trim_end_by p s)
  where
    cons_unless : Bool → ℕ → Text → Text
    cons_unless true c [] = []
    cons_unless _ c t = c ∷ t

unfoldable pub trim_start : Text → Text
unfolding is_whitespace
trim_start = trim_start_by is_whitespace

unfoldable pub trim : Text → Text
unfolding is_whitespace
trim s = trim_end_by is_whitespace (trim_start_by is_whitespace s)

-- `str::strip_prefix`.
abbrev pub strip_prefix : Text → Text → Option Text
strip_prefix [] s = some s
strip_prefix (p ∷ ps) [] = none
strip_prefix (p ∷ ps) (c ∷ s) = if p == c then strip_prefix ps s else none

-- `u8::to_ascii_lowercase` and `str::eq_ignore_ascii_case`.
unfoldable pub to_ascii_lowercase : ℕ → ℕ
to_ascii_lowercase c = if leb b'A' c && leb c b'Z' then c + 32 else c

instance abbrev pub option_text_eq : Eq (Option Text)
option_text_eq = record { beq = option_text_beq; beq_iff = option_text_beq_iff }

-- The order of strings, and that of options of them, where none comes first.
unfoldable pub text_leb : Text → Text → Bool
text_leb [] t = true
text_leb (a ∷ s) [] = false
text_leb (a ∷ s) (b ∷ t) = let rest = text_leb s t in if a == b then rest else leb a b

abbrev pub option_text_leb : Option Text → Option Text → Bool
option_text_leb none t = true
option_text_leb (some s) none = false
option_text_leb (some s) (some t) = text_leb s t

unfoldable pub eq_ignore_ascii_case : Text → Text → Bool
eq_ignore_ascii_case s t = text_beq (map to_ascii_lowercase s) (map to_ascii_lowercase t)
