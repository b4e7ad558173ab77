-- ===== src/Tasks/Polling.antt =====
-- Which tasks a round of polling takes (task_store/in_memory_task_store.rs).
use rust_mcp_sdk.Prelude.{
  ℕ, ◌≤◌, ◌<◌, ◌≡◌, refl, Bool, true, false, not, Option, some, List, [], ◌∷◌, map, leb, retain,
  All, arith, Bool-cases, inl, inr, ap,
}
use rust_mcp_sdk.Prelude.Text.{Text}
use rust_mcp_sdk.Tasks.{TaskStore, polls_from, tasks_to_poll}
use rust_mcp_sdk.Tasks.Schedule.{
  ScheduledPoll, poll_leb, push_poll, pop_due, push_all, next_poll_at,
}

-- Ascending in the instants.
abbrev pub IsOrdered : List ScheduledPoll → Type 0
IsOrdered [] = Unit
IsOrdered (p ∷ l) = All (λ q. p.0 ≤ q.0) l × IsOrdered l

abbrev pub is_due : ℕ → ScheduledPoll → Bool
is_due now p = leb p.0 now

poll_leb-true : (p q : ScheduledPoll) → poll_leb p q ≡ true → p.0 ≤ q.0
poll_leb-true (n, i, a) (m, j, b) h = ground arith

poll_leb-false : (p q : ScheduledPoll) → poll_leb p q ≡ false → q.0 ≤ p.0
poll_leb-false (n, i, a) (m, j, b) h = ground arith

All-mono : (n m : ℕ) (l : List ScheduledPoll) → n ≤ m → All (λ q. m ≤ q.0) l → All (λ q. n ≤ q.0) l
All-mono n m [] h a = tt
All-mono n m (p ∷ l) h (b, a) = (omega (arith, h, b), All-mono n m l h a)

All-push_poll :
    (n : ℕ) (p : ScheduledPoll) (l : List ScheduledPoll)
    → n ≤ p.0
    → All (λ q. n ≤ q.0) l
    → All (λ q. n ≤ q.0) (push_poll p l)
unfolding push_poll
All-push_poll n p [] h a = (h, tt)
All-push_poll n p (q ∷ l) h (b, a) = elim (Bool-cases (poll_leb p q)) [
  | inl e ↦ rw e (h, (b, a))
  | inr e ↦ rw e (b, All-push_poll n p l h a)
]

pub push_poll-IsOrdered :
    (p : ScheduledPoll) (l : List ScheduledPoll) → IsOrdered l → IsOrdered (push_poll p l)
unfolding push_poll
push_poll-IsOrdered p [] h = (tt, tt)
push_poll-IsOrdered p (q ∷ l) (a, h) = elim (Bool-cases (poll_leb p q)) [
  | inl e ↦ rw e ((poll_leb-true p q e, All-mono p.0 q.0 l (poll_leb-true p q e) a), (a, h))
  | inr e ↦ rw e (All-push_poll q.0 p l (poll_leb-false p q e) a, push_poll-IsOrdered p l h)
]

pub push_all-IsOrdered :
    (now : ℕ) (polls : List (Text × Option Text × ℕ)) (l : List ScheduledPoll)
    → IsOrdered l
    → IsOrdered (push_all now polls l)
unfolding push_all
push_all-IsOrdered now [] l h = h
push_all-IsOrdered now ((id, session, n) ∷ polls) l h =
    push_all-IsOrdered now polls _ (push_poll-IsOrdered (next_poll_at now n, id, session) l h)

none_due :
    (now n : ℕ) (l : List ScheduledPoll)
    → now < n
    → All (λ q. n ≤ q.0) l
    → (retain (is_due now) l ≡ []) × (retain (λ p. not (is_due now p)) l ≡ l)
none_due now n [] h a = (refl, refl)
none_due now n (p ∷ l) h (b, a) = ground (arith, none_due now n l h a)

pub pop_due-IsOrdered :
    (now : ℕ) (l : List ScheduledPoll)
    → IsOrdered l
    → ((pop_due now l).0 ≡ map (λ p. (p.1, p.2)) (retain (is_due now) l))
      × ((pop_due now l).1 ≡ retain (λ p. not (is_due now p)) l)
unfolding pop_due
pop_due-IsOrdered now [] h = (refl, refl)
pop_due-IsOrdered now ((n, id, session) ∷ l) (a, h) = elim (Bool-cases (leb n now)) [
  | inl e ↦
      rw e
        (ap (λ t. (id, session) ∷ t) (pop_due-IsOrdered now l h).0, (pop_due-IsOrdered now l h).1)
  | inr e ↦ rw e (ground (arith, none_due now n l (ground arith) a))
]

All-retain :
    (n : ℕ) (t : ScheduledPoll → Bool) (l : List ScheduledPoll)
    → All (λ q. n ≤ q.0) l
    → All (λ q. n ≤ q.0) (retain t l)
All-retain n t [] h = tt
All-retain n t (p ∷ l) (b, h) = ground (arith, b, All-retain n t l h)

pub retain-IsOrdered :
    (t : ScheduledPoll → Bool) (l : List ScheduledPoll) → IsOrdered l → IsOrdered (retain t l)
retain-IsOrdered t [] h = tt
retain-IsOrdered t (p ∷ l) (a, h) = elim (Bool-cases (t p)) [
  | inl e ↦ rw e (All-retain p.0 t l a, retain-IsOrdered t l h)
  | inr e ↦ rw e (retain-IsOrdered t l h)
]

polls_from-IsOrdered :
    {S Q R M : Type 0} (now : ℕ) (s : TaskStore S Q R M) (o : Option (List ScheduledPoll))
    (l : List ScheduledPoll)
    → o ≡ some l
    → IsOrdered l
    → ((polls_from now s o).1 ≡ map (λ p. (p.1, p.2)) (retain (is_due now) l))
      × ((polls_from now s o).0.poll_schedule ≡ some (retain (λ p. not (is_due now p)) l))
polls_from-IsOrdered now s o l e h =
    rw e ((pop_due-IsOrdered now l h).0, ap some (pop_due-IsOrdered now l h).1)

-- When the polls stand in the order of their instants, those that are taken are exactly those that
-- are due, the earliest first, and exactly the others are left.
pub tasks_to_poll-IsOrdered :
    {S Q R M : Type 0} (now : ℕ) (s : TaskStore S Q R M) (l : List ScheduledPoll)
    → s.poll_schedule ≡ some l
    → IsOrdered l
    → ((tasks_to_poll now s).1 ≡ map (λ p. (p.1, p.2)) (retain (is_due now) l))
      × ((tasks_to_poll now s).0.poll_schedule ≡ some (retain (λ p. not (is_due now p)) l))
unfolding tasks_to_poll
tasks_to_poll-IsOrdered now s l e h = polls_from-IsOrdered now s s.poll_schedule l e h
