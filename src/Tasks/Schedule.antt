-- ===== src/Tasks/Schedule.antt =====
-- The schedule of the task store's polls (task_store/in_memory_task_store.rs): a heap, as the list
-- of its elements in ascending order.
use rust_mcp_sdk.Prelude.{
  ℕ, ◌+◌, ◌*◌, ◌%◌, ◌^◌, Bool, Option, none, some, List, [], ◌∷◌, leb, ltb, ◌==◌, if◌then◌else◌,
}
use rust_mcp_sdk.Prelude.Text.{Text, text_beq, text_leb, option_text_leb}

-- `ScheduledPoll`: an instant in milliseconds, a task and its session.
abbrev pub ScheduledPoll : Type 0
ScheduledPoll = ℕ × Text × Option Text

-- The order of the tuples.
abbrev pub poll_leb : ScheduledPoll → ScheduledPoll → Bool
poll_leb (n, id, session) (m, jd, other) =
    if n == m
    then (if text_beq id jd then option_text_leb session other else text_leb id jd)
    else leb n m

-- `BinaryHeap::push`.
unfoldable pub push_poll : ScheduledPoll → List ScheduledPoll → List ScheduledPoll
push_poll p [] = p ∷ []
push_poll p (q ∷ l) = let rest = push_poll p l in if poll_leb p q then p ∷ q ∷ l else q ∷ rest

-- `checked_add` and its default. An instant has 63 bits of seconds.
unfoldable pub next_poll_at : ℕ → ℕ → ℕ
next_poll_at now millis = if ltb (now + millis) (2 ^ 63 * 1000) then now + millis else now

-- `default_poll_interval.as_millis() as i64`
abbrev pub as_i64 : ℕ → ℕ
as_i64 n = n % 2 ^ 64

-- The loop of `tasks_to_poll`: the tasks that are due, and the schedule that is left.
unfoldable pub pop_due : ℕ → List ScheduledPoll → List (Text × Option Text) × List ScheduledPoll
pop_due now [] = ([], [])
pop_due now ((n, id, session) ∷ l) =
    let rest = pop_due now l in
    if leb n now then ((id, session) ∷ rest.0, rest.1) else ([], (n, id, session) ∷ l)

unfoldable pub push_all :
    ℕ → List (Text × Option Text × ℕ) → List ScheduledPoll → List ScheduledPoll
push_all now [] schedule = schedule
push_all now ((id, session, interval) ∷ l) schedule =
    push_all now l (push_poll (next_poll_at now interval, id, session) schedule)

abbrev pub schedule_poll : Option (List ScheduledPoll) → ScheduledPoll → Option (List ScheduledPoll)
schedule_poll none p = none
schedule_poll (some schedule) p = some (push_poll p schedule)
