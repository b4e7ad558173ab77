-- ===== src/Prelude/Split.antt =====
-- `str::split` at a text that is not empty: the matches from the left, none overlapping.
use Prim.Native.Nat.{ℕ, zero, suc}
use native.Mathlib.Omega.{arith}
use mathlib.Core.Path.{◌≡◌, refl, sym, ap, ◌∙◌}
use mathlib.Core.Logic.{inl, inr, ◌≢◌}
use mathlib.Core.Option.{Option, none, some}
use mathlib.Core.Bool.{Bool, true, false, ◌&&◌}
use mathlib.Core.List.{List, [], ◌∷◌, ◌++◌}
use rust_mcp_sdk.Prelude.Tests.{◌==◌, if◌then◌else◌, Bool-cases, ◌>>=◌}
use rust_mcp_sdk.Prelude.Lists.{length, drop, All}
use rust_mcp_sdk.Prelude.Text.{Text, codes}

-- `str::starts_with`, with the prefix first.
unfoldable pub starts_with : Text → Text → Bool
starts_with [] s = true
starts_with (p ∷ ps) [] = false
starts_with (p ∷ ps) (c ∷ s) = c == p && starts_with ps s

abbrev push_head : ℕ → List Text → List Text
push_head c [] = (c ∷ []) ∷ []
push_head c (s ∷ l) = (c ∷ s) ∷ l

abbrev tail : Text → Text
tail [] = []
tail (c ∷ s) = s

-- The number is what is left of the match that is being passed over.
pub split_from : Text → ℕ → Text → List Text
split_from sep skip [] = [] ∷ []
split_from sep (suc skip) (c ∷ s) = split_from sep skip s
split_from sep zero (c ∷ s) =
    let matched = [] ∷ split_from sep (length (tail sep)) s in
    let unmatched = push_head c (split_from sep 0 s) in
    if starts_with sep (c ∷ s) then matched else unmatched

unfoldable pub split : Text → Text → List Text
unfolding split_from starts_with
split sep s = split_from sep 0 s

-- `join`
abbrev pub join : Text → List Text → Text
join sep [] = []
join sep (s ∷ []) = s
join sep (s ∷ t ∷ l) = s ++ (sep ++ join sep (t ∷ l))

starts_with-drop : (p s : Text) → starts_with p s ≡ true → s ≡ p ++ drop (length p) s
unfolding starts_with
starts_with-drop [] s h = refl
starts_with-drop (a ∷ p) [] h = cc
starts_with-drop (a ∷ p) (c ∷ s) h = ground (arith, starts_with-drop p s)

join-push_head : (sep : Text) (c : ℕ) (l : List Text) → join sep (push_head c l) ≡ c ∷ join sep l
join-push_head sep c [] = refl
join-push_head sep c (s ∷ []) = refl
join-push_head sep c (s ∷ t ∷ l) = refl

IsCons-push_head : (c : ℕ) (l : List Text) → (s : Text) × (r : List Text) × (push_head c l ≡ s ∷ r)
IsCons-push_head c [] = (c ∷ [], [], refl)
IsCons-push_head c (s ∷ l) = (c ∷ s, l, refl)

IsCons-split_from :
    (sep : Text) (skip : ℕ) (s : Text)
    → (t : Text) × (r : List Text) × (split_from sep skip s ≡ t ∷ r)
unfolding split_from
IsCons-split_from sep skip [] = ([], [], refl)
IsCons-split_from sep (suc skip) (c ∷ s) = IsCons-split_from sep skip s
IsCons-split_from sep zero (c ∷ s) = elim (Bool-cases (starts_with sep (c ∷ s))) [
  | inl e ↦ rw e ([], _, refl)
  | inr e ↦ rw e (IsCons-push_head c (split_from sep 0 s))
]

join-matched :
    (sep : Text) (l : List Text) (s : Text) (r : List Text)
    → l ≡ s ∷ r
    → join sep ([] ∷ l) ≡ sep ++ join sep l
join-matched sep l s r e = rw e refl

join-split_from :
    (a : ℕ) (sep : Text) (skip : ℕ) (s : Text)
    → join (a ∷ sep) (split_from (a ∷ sep) skip s) ≡ drop skip s
unfolding split_from
join-split_from a sep zero [] = refl
join-split_from a sep (suc skip) [] = refl
join-split_from a sep (suc skip) (c ∷ s) = join-split_from a sep skip s
join-split_from a sep zero (c ∷ s) = elim (Bool-cases (starts_with (a ∷ sep) (c ∷ s))) [
  | inl e ↦
      let (t, r, found) = IsCons-split_from (a ∷ sep) (length sep) s in
      rw e (
        join-matched (a ∷ sep) _ t r found
        ∙ (rw (join-split_from a sep (length sep) s) (sym (starts_with-drop (a ∷ sep) (c ∷ s) e))))
  | inr e ↦ rw e (join-push_head (a ∷ sep) c _ ∙ ap (λ l. c ∷ l) (join-split_from a sep 0 s))
]

-- A text is its parts, joined again.
pub join-split : (a : ℕ) (sep s : Text) → join (a ∷ sep) (split (a ∷ sep) s) ≡ s
unfolding split
join-split a sep s = join-split_from a sep 0 s

split_example :
    split (codes "-.-") (codes "s1-.-st-1-.-42") ≡ codes "s1" ∷ codes "st-1" ∷ codes "42" ∷ []
unfolding split
split_example = refl

-- `str::split_once` at one character.
unfoldable pub split_once : ℕ → Text → Option (Text × Text)
split_once sep [] = none
split_once sep (c ∷ s) =
    let later = split_once sep s in
    if c == sep then some ([], s) else (later >>= λ (front, behind). some (c ∷ front, behind))

-- The text in front of the first separator has none.
pub split_once_first :
    (sep : ℕ) (front behind : Text)
    → All (λ c. c ≢ sep) front
    → split_once sep (front ++ sep ∷ behind) ≡ some (front, behind)
unfolding split_once
split_once_first sep [] behind h = ground arith
split_once_first sep (c ∷ front) behind h =
    rw (split_once_first sep front behind h.1) (ground (arith, h.0))

pub split_once_whole : (sep : ℕ) (s : Text) → All (λ c. c ≢ sep) s → split_once sep s ≡ none
unfolding split_once
split_once_whole sep [] h = refl
split_once_whole sep (c ∷ s) h = rw (split_once_whole sep s h.1) (ground (arith, h.0))

push_head-append :
    (c : ℕ) (t : Text) (l r m : List Text) → l ≡ t ∷ r → push_head c (l ++ m) ≡ push_head c l ++ m
push_head-append c t l r m e = rw e refl

-- A separator of one character splits off what is in front of it.
pub split-append :
    (a : ℕ) (s t : Text) → split (a ∷ []) (s ++ a ∷ t) ≡ split (a ∷ []) s ++ split (a ∷ []) t
unfolding split split_from starts_with
split-append a [] t = ground arith
split-append a (c ∷ s) t = elim (Bool-cases (c == a)) [
  | inl e ↦ rw e (ap (λ l. [] ∷ l) (split-append a s t))
  | inr e ↦
      let (p, r, found) = IsCons-split_from (a ∷ []) 0 s in
      rw e (
        ap (push_head c) (split-append a s t)
        ∙ push_head-append c p (split_from (a ∷ []) 0 s) r (split_from (a ∷ []) 0 t) found)
]

-- A text without the separator is one part.
pub split_none : (a : ℕ) (s : Text) → All (λ c. c ≢ a) s → split (a ∷ []) s ≡ s ∷ []
unfolding split split_from starts_with
split_none a [] h = refl
split_none a (c ∷ s) h = rw (split_none a s h.1) (ground (arith, h.0))
