-- ===== src/Prelude/Trim.antt =====
-- Trimming at the ends of a text.
use Prim.Native.Nat.{ℕ}
use native.Mathlib.Omega.{arith}
use mathlib.Core.Path.{◌≡◌, refl}
use mathlib.Core.Logic.{◌≢◌}
use mathlib.Core.Bool.{Bool, false}
use mathlib.Core.List.{[], ◌∷◌, ◌++◌}
use rust_mcp_sdk.Prelude.Tests.{◌==◌}
use rust_mcp_sdk.Prelude.Lists.{All}
use rust_mcp_sdk.Prelude.Text.{Text, trim_end_by, trim, is_whitespace}

-- One character at the end is trimmed, where the others differ from it.
pub trim_end_by-last :
    (a : ℕ) (s : Text) → All (λ c. c ≢ a) s → trim_end_by (λ c. c == a) (s ++ a ∷ []) ≡ s
trim_end_by-last a [] h = ground arith
trim_end_by-last a (c ∷ s) h = rw (trim_end_by-last a s h.1) (ground (arith, h.0))

-- Nothing is trimmed behind a character that stays.
pub trim_end_by-kept :
    (p : ℕ → Bool) (b : ℕ) (s : Text) → p b ≡ false → trim_end_by p (s ++ b ∷ []) ≡ s ++ b ∷ []
trim_end_by-kept p b [] h = rw h refl
trim_end_by-kept p b (c ∷ []) h = rw h (ground arith)
trim_end_by-kept p b (c ∷ d ∷ s) h = rw (trim_end_by-kept p b (d ∷ s) h) (ground arith)

-- A space in front is trimmed, and nothing else, of a text that begins and ends without one.
pub trim-space :
    (c b : ℕ) (s : Text)
    → is_whitespace c ≡ false
    → is_whitespace b ≡ false
    → trim (32 ∷ c ∷ (s ++ b ∷ [])) ≡ c ∷ (s ++ b ∷ [])
unfolding trim
trim-space c b s h g = rw (h) (trim_end_by-kept is_whitespace b (c ∷ s) g)
