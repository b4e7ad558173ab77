-- ===== src/Prelude/Table.antt =====
-- A hash map or a B-tree map, as an association list. No code that is modelled depends on the
-- order in which a hash map is walked.
use Prim.Native.Nat.{◌+◌}
use native.Mathlib.Omega.{arith}
use mathlib.Core.Path.{◌≡◌, refl, ◌∙◌}
use mathlib.Core.Logic.{inl, inr}
use mathlib.Core.Bool.{Bool, true}
use mathlib.Core.Option.{Option, none, some}
use mathlib.Core.List.{List, [], ◌∷◌}
use rust_mcp_sdk.Prelude.Tests.{Eq, if◌then◌else◌, is_some, Bool-cases}
use rust_mcp_sdk.Prelude.Lists.{length, retain}

abbrev pub Table {ℓ κ} : Type ℓ → Type κ → Type (ℓ ⊔ κ)
Table K V = List (K × V)

abbrev pub apply_to {κ} : {V : Type κ} → (V → V) → Option V → Option V
apply_to f none = none
apply_to f (some v) = some (f v)

module _ {ℓ} {K : Type ℓ} ⦃e : Eq K⦄ where
  pub beq_refl : (k : K) → e.beq k k ≡ true
  beq_refl k = (e.beq_iff k k).1 refl

module _ {ℓ κ} {K : Type ℓ} {V : Type κ} ⦃e : Eq K⦄ where
  -- `get`
  unfoldable pub lookup : K → Table K V → Option V
  lookup k [] = none
  lookup k ((j, v) ∷ m) = if e.beq j k then some v else lookup k m

  -- `insert`: the value of a key that is there is replaced.
  unfoldable pub insert : K → V → Table K V → Table K V
  insert k v [] = (k, v) ∷ []
  insert k v ((j, w) ∷ m) = if e.beq j k then (j, v) ∷ m else (j, w) ∷ insert k v m

  -- `remove`
  unfoldable pub remove : K → Table K V → Table K V
  remove k [] = []
  remove k ((j, v) ∷ m) = let rest = remove k m in if e.beq j k then rest else (j, v) ∷ rest

  -- A write through `get_mut`: a key that is not there changes nothing.
  unfoldable pub modify : K → (V → V) → Table K V → Table K V
  modify k f [] = []
  modify k f ((j, v) ∷ m) = if e.beq j k then (j, f v) ∷ m else (j, v) ∷ modify k f m

  abbrev pub contains_key : K → Table K V → Bool
  contains_key k m = is_some (lookup k m)

  pub lookup-insert :
      (k j : K) (v : V) (m : Table K V)
      → lookup j (insert k v m) ≡ (if e.beq k j then some v else lookup j m)
  unfolding lookup insert
  lookup-insert k j v [] = refl
  lookup-insert k j v ((i, w) ∷ m) =
      ground (arith, e.beq_iff k j, e.beq_iff i k, e.beq_iff i j, lookup-insert k j v m)

  pub lookup-remove :
      (k j : K) (m : Table K V) → lookup j (remove k m) ≡ (if e.beq k j then none else lookup j m)
  unfolding lookup remove
  lookup-remove k j [] = ground arith
  lookup-remove k j ((i, w) ∷ m) =
      ground (arith, e.beq_iff k j, e.beq_iff i k, e.beq_iff i j, lookup-remove k j m)

  pub lookup-modify :
      (k j : K) (f : V → V) (m : Table K V)
      → lookup j (modify k f m) ≡ (if e.beq k j then apply_to f (lookup j m) else lookup j m)
  unfolding lookup modify
  lookup-modify k j f [] = ground arith
  lookup-modify k j f ((i, w) ∷ m) =
      ground (arith, e.beq_iff k j, e.beq_iff i k, e.beq_iff i j, lookup-modify k j f m)

  pub lookup-modify_own :
      (k j : K) (f : V → V) (m : Table K V)
      → lookup j (modify k f m) ≡ (if e.beq k j then apply_to f (lookup k m) else lookup j m)
  lookup-modify_own k j f m = lookup-modify k j f m ∙ (elim (Bool-cases (e.beq k j)) [
    | inl q ↦ rw q (rw ((e.beq_iff k j).0 q) refl)
    | inr q ↦ rw q refl
  ])

  -- The number of keys grows by one exactly when the key is new.
  pub length-insert :
      (k : K) (v : V) (m : Table K V)
      → length (insert k v m) ≡ (if contains_key k m then length m else length m + 1)
  unfolding lookup insert
  length-insert k v [] = refl
  length-insert k v ((j, w) ∷ m) = ground (arith, length-insert k v m)

  -- No key occurs twice.
  abbrev pub IsDistinct : Table K V → Type κ
  IsDistinct [] = Unit
  IsDistinct ((k, v) ∷ m) = (lookup k m ≡ none) × IsDistinct m

  pub insert-IsDistinct : (k : K) (v : V) (m : Table K V) → IsDistinct m → IsDistinct (insert k v m)
  unfolding insert lookup
  insert-IsDistinct k v [] h = (refl, tt)
  insert-IsDistinct k v ((j, w) ∷ m) h =
      ground
        (arith, e.beq_iff j k, e.beq_iff k j, lookup-insert k j v m, insert-IsDistinct k v m h.1)

  pub remove-IsDistinct : (k : K) (m : Table K V) → IsDistinct m → IsDistinct (remove k m)
  unfolding remove lookup
  remove-IsDistinct k [] h = tt
  remove-IsDistinct k ((j, w) ∷ m) h =
      ground (arith, e.beq_iff k j, lookup-remove k j m, remove-IsDistinct k m h.1)

  pub length-modify : (k : K) (f : V → V) (m : Table K V) → length (modify k f m) ≡ length m
  unfolding modify
  length-modify k f [] = refl
  length-modify k f ((j, w) ∷ m) = ground (arith, length-modify k f m)

  pub modify-IsDistinct :
      (k : K) (f : V → V) (m : Table K V) → IsDistinct m → IsDistinct (modify k f m)
  unfolding modify lookup
  modify-IsDistinct k f [] h = tt
  modify-IsDistinct k f ((j, w) ∷ m) h =
      ground (arith, e.beq_iff k j, lookup-modify k j f m, modify-IsDistinct k f m h.1)

  remove_absent : (k : K) (m : Table K V) → lookup k m ≡ none → remove k m ≡ m
  unfolding remove lookup
  remove_absent k [] h = refl
  remove_absent k ((j, w) ∷ m) h = ground (arith, remove_absent k m)

  pub length-remove :
      (k : K) (m : Table K V)
      → IsDistinct m
      → length m ≡ (if contains_key k m then length (remove k m) + 1 else length (remove k m))
  unfolding lookup remove
  length-remove k [] h = refl
  length-remove k ((j, w) ∷ m) h =
      ground (arith, e.beq_iff j k, remove_absent k m, length-remove k m h.1)

  pub lookup-retain-none :
      (p : K × V → Bool) (k : K) (m : Table K V) → lookup k m ≡ none → lookup k (retain p m) ≡ none
  unfolding lookup
  lookup-retain-none p k [] h = refl
  lookup-retain-none p k ((j, w) ∷ m) h = ground (arith, lookup-retain-none p k m)

  pub retain-IsDistinct :
      (p : K × V → Bool) (m : Table K V) → IsDistinct m → IsDistinct (retain p m)
  retain-IsDistinct p [] h = tt
  retain-IsDistinct p ((j, w) ∷ m) h =
      ground (arith, lookup-retain-none p j m h.0, retain-IsDistinct p m h.1)

  -- `retain` keeps an entry exactly when it passes the test.
  pub lookup-retain :
      (p : K × V → Bool) (k : K) (m : Table K V)
      → IsDistinct m
      → lookup k (retain p m)
        ≡ (elim (lookup k m) [ none ↦ none | some v ↦ if p (k, v) then some v else none ])
  unfolding lookup
  lookup-retain p k [] h = refl
  lookup-retain p k ((j, w) ∷ m) h =
      ground (arith, e.beq_iff j k, lookup-retain-none p k m, lookup-retain p k m h.1)
