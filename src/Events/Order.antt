-- ===== src/Events/Order.antt =====
-- `sort_by_key` on the time stamp, as `events_after` of in_memory_event_store.rs uses it.
use mathlib.Core.List.Perm
use rust_mcp_sdk.Prelude.{
  ℕ, ◌≤◌, ◌≡◌, refl, Bool, List, [], ◌∷◌, arith, All, retain, leb, Bool-cases, inl, inr, Perm,
}
use rust_mcp_sdk.Prelude.Text.{text_eq}
use rust_mcp_sdk.Events.{EventEntry, insert_by_time, sort_by_time}

-- In ascending order of their time stamps.
abbrev pub IsSorted : List EventEntry → Type 0
IsSorted [] = Unit
IsSorted (e ∷ l) = All (λ d. e.time_stamp ≤ d.time_stamp) l × IsSorted l

module _ (n : ℕ) where
  abbrev AtLeast : List EventEntry → Type 0
  AtLeast = All (λ d. n ≤ d.time_stamp)

  AtLeast-insert_by_time :
      (e : EventEntry) (l : List EventEntry)
      → n ≤ e.time_stamp
      → AtLeast l
      → AtLeast (insert_by_time e l)
  unfolding insert_by_time
  AtLeast-insert_by_time e [] h hl = (h, tt)
  AtLeast-insert_by_time e (d ∷ l) h hl = elim (Bool-cases (leb e.time_stamp d.time_stamp)) [
    | inl le ↦ rw le (h, hl)
    | inr gt ↦ rw gt (hl.0, AtLeast-insert_by_time e l h hl.1)
  ]

  AtLeast-retain : (p : EventEntry → Bool) (l : List EventEntry) → AtLeast l → AtLeast (retain p l)
  AtLeast-retain p [] h = tt
  AtLeast-retain p (d ∷ l) h = elim (Bool-cases (p d)) [
    | inl e ↦ rw e (h.0, AtLeast-retain p l h.1)
    | inr e ↦ rw e (AtLeast-retain p l h.1)
  ]

AtLeast-trans : (m n : ℕ) (l : List EventEntry) → m ≤ n → AtLeast n l → AtLeast m l
AtLeast-trans m n [] h hl = tt
AtLeast-trans m n (d ∷ l) h hl = (omega (arith, hl.0), AtLeast-trans m n l h hl.1)

insert_by_time-IsSorted :
    (e : EventEntry) (l : List EventEntry) → IsSorted l → IsSorted (insert_by_time e l)
unfolding insert_by_time
insert_by_time-IsSorted e [] h = (tt, tt)
insert_by_time-IsSorted e (d ∷ l) h = elim (Bool-cases (leb e.time_stamp d.time_stamp)) [
  | inl le ↦ rw le ((ground arith, AtLeast-trans e.time_stamp d.time_stamp l (ground arith) h.0), h)
  | inr gt ↦
      rw gt (
        AtLeast-insert_by_time d.time_stamp e l (ground arith) h.0,
        insert_by_time-IsSorted e l h.1,
      )
]

pub sort_by_time-IsSorted : (l : List EventEntry) → IsSorted (sort_by_time l)
unfolding sort_by_time
sort_by_time-IsSorted [] = tt
sort_by_time-IsSorted (e ∷ l) = insert_by_time-IsSorted e (sort_by_time l) (sort_by_time-IsSorted l)

insert_by_time-perm : (e : EventEntry) (l : List EventEntry) → Perm (insert_by_time e l) (e ∷ l)
unfolding insert_by_time
insert_by_time-perm e [] = Perm.refl (e ∷ [])
insert_by_time-perm e (d ∷ l) = elim (Bool-cases (leb e.time_stamp d.time_stamp)) [
  | inl le ↦ rw le (Perm.refl (e ∷ d ∷ l))
  | inr gt ↦ rw gt (Perm.trans (Perm.cons d (insert_by_time-perm e l)) (Perm.swap e d l))
]

pub sort_by_time-perm : (l : List EventEntry) → Perm (sort_by_time l) l
unfolding sort_by_time
sort_by_time-perm [] = Perm.refl []
sort_by_time-perm (e ∷ l) =
    Perm.trans (insert_by_time-perm e (sort_by_time l)) (Perm.cons e (sort_by_time-perm l))

insert_by_time_head :
    (e : EventEntry) (l : List EventEntry) → AtLeast e.time_stamp l → insert_by_time e l ≡ e ∷ l
unfolding insert_by_time
insert_by_time_head e [] h = refl
insert_by_time_head e (d ∷ l) h = ground (arith, h.0)

pub sort_by_time_sorted : (l : List EventEntry) → IsSorted l → sort_by_time l ≡ l
unfolding sort_by_time
sort_by_time_sorted [] h = refl
sort_by_time_sorted (e ∷ l) h = rw (sort_by_time_sorted l h.1) (insert_by_time_head e l h.0)

pub retain-IsSorted :
    (p : EventEntry → Bool) (l : List EventEntry) → IsSorted l → IsSorted (retain p l)
retain-IsSorted p [] h = tt
retain-IsSorted p (e ∷ l) h = elim (Bool-cases (p e)) [
  | inl t ↦ rw t (AtLeast-retain e.time_stamp p l h.0, retain-IsSorted p l h.1)
  | inr f ↦ rw f (retain-IsSorted p l h.1)
]
