-- ===== src/Tasks/Runs.antt =====
-- Sequences of operations on a task store (task_store/in_memory_task_store.rs). Every operation
-- that changes the store is one step.
use rust_mcp_sdk.Prelude.{
  ℕ, refl, Bool, true, false, Option, none, some, List, [], ◌∷◌, Option-cases, Bool-cases, inl, inr,
  Eq,
}
use rust_mcp_sdk.Prelude.Text.{Text}
use rust_mcp_sdk.Prelude.Table.{lookup}
use rust_mcp_sdk.Tasks.{
  TaskStore, CreateTaskOptions, Clock, entry_of, with_options, create_task, expire_task,
  subscribe_to_task, store_task_result, update_task_status, tasks_to_poll, re_schedule, poll_task,
  start_task_polling, polls_from, re_schedule_in, start_unless,
}
use rust_mcp_sdk.Tasks.Schedule.{ScheduledPoll}
use rust_mcp_sdk.Tasks.Polling.{push_all-IsOrdered, retain-IsOrdered, pop_due-IsOrdered}
use rust_mcp_sdk.Tasks.Listed.{
  IsWellFormed, IsSchedule, modify-IsWellFormed, published-IsWellFormed, schedule-IsWellFormed,
  remove-IsWellFormed, expire-IsWellFormed, create-IsWellFormed,
}

pub data Op (S Q R M : Type 0) : Type 0 where
  create : Clock → Text → CreateTaskOptions M → Q → Option Text → Op S Q R M
  expire : Text → Option Text → Op S Q R M
  subscribe : Text → Option Text → ℕ → Op S Q R M
  store_result : Text → Text → S → R → Option Text → Op S Q R M
  update_status : Text → Text → S → Option Text → Option Text → Op S Q R M
  take_polls : ℕ → Op S Q R M
  poll : Text → Option Text → Option (S × Option ℕ) → Op S Q R M
  schedule_again : ℕ → List (Text × Option Text × ℕ) → Op S Q R M
  start_polling : Op S Q R M

abbrev or_same : {A : Type 0} → Option A → A → A
or_same none a = a
or_same (some b) a = b

module _ {S Q R M : Type 0} where
  subscribe-IsWellFormed :
      (s : TaskStore S Q R M) (id : Text) (k : Option Text) (channel : ℕ)
      → IsWellFormed s
      → IsWellFormed (subscribe_to_task s id k channel).0
  unfolding subscribe_to_task
  subscribe-IsWellFormed s id k channel h = elim (Option-cases (entry_of s id k)) [
    | inl n ↦ rw (n, subscribe_to_task) h
    | inr (d, n) ↦ rw (n, subscribe_to_task) (modify-IsWellFormed s id k _ (λ c. refl) h)
  ]

  polls_from-IsWellFormed :
      (now : ℕ) (s : TaskStore S Q R M) (o : Option (List ScheduledPoll))
      → IsWellFormed s
      → IsSchedule o
      → IsWellFormed (polls_from now s o).0
  polls_from-IsWellFormed now s none h i = h
  polls_from-IsWellFormed now s (some l) h i =
      schedule-IsWellFormed s _ (rw (pop_due-IsOrdered now l i).1 (retain-IsOrdered _ l i)) h

  re_schedule_in-IsWellFormed :
      (now : ℕ) (s : TaskStore S Q R M) (l : List (Text × Option Text × ℕ))
      (o : Option (List ScheduledPoll))
      → IsWellFormed s
      → IsSchedule o
      → IsWellFormed (re_schedule_in now s l o)
  re_schedule_in-IsWellFormed now s l none h i = h
  re_schedule_in-IsWellFormed now s l (some schedule) h i =
      schedule-IsWellFormed s _ (push_all-IsOrdered now l schedule i) h

  polls-IsWellFormed :
      (now : ℕ) (s : TaskStore S Q R M) → IsWellFormed s → IsWellFormed (tasks_to_poll now s).0
  unfolding tasks_to_poll
  polls-IsWellFormed now s h = polls_from-IsWellFormed now s s.poll_schedule h h.scheduled

  re_schedule-IsWellFormed :
      (now : ℕ) (s : TaskStore S Q R M) (l : List (Text × Option Text × ℕ))
      → IsWellFormed s
      → IsWellFormed (re_schedule now s l)
  unfolding re_schedule
  re_schedule-IsWellFormed now s l h =
      re_schedule_in-IsWellFormed now s l s.poll_schedule h h.scheduled

  poll-IsWellFormed :
      (is_terminal : S → Bool) (s : TaskStore S Q R M) (id : Text) (k : Option Text)
      (update : Option (S × Option ℕ))
      → IsWellFormed s
      → IsWellFormed (poll_task is_terminal s id k update).0
  unfolding poll_task
  poll-IsWellFormed is_terminal s id k none h = elim (Option-cases (entry_of s id k)) [
    | inl n ↦ rw (n, poll_task) h
    | inr (d, n) ↦ rw (n, poll_task) h
  ]
  poll-IsWellFormed is_terminal s id k (some (status, interval)) h =
      elim (Bool-cases (is_terminal status)) [
        | inl b ↦ rw b (remove-IsWellFormed s id k h)
        | inr b ↦ rw b h
      ]

  start_unless-IsWellFormed :
      (b : Bool) (s : TaskStore S Q R M)
      → IsWellFormed s
      → IsWellFormed (or_same (start_unless b s) s)
  start_unless-IsWellFormed true s h = h
  start_unless-IsWellFormed false s h = record {
    listed = h.listed;
    named = h.named;
    scheduled = h.scheduled;
    tasks_distinct = h.tasks_distinct;
    ids_distinct = h.ids_distinct;
  }

  new-IsWellFormed :
      (page_size default_poll_interval : ℕ)
      → IsWellFormed {S = S} {Q = Q} {R = R} {M = M} (with_options page_size default_poll_interval)
  unfolding with_options lookup
  new-IsWellFormed page_size default_poll_interval = record {
    listed = λ id k there. cc;
    named = λ id k d there. cc;
    scheduled = tt;
    tasks_distinct = tt;
    ids_distinct = tt;
  }

module _ {S Q R M : Type 0} ⦃e : Eq S⦄ where
  result-IsWellFormed :
      (now : Text) (s : TaskStore S Q R M) (id : Text) (status : S) (result : R) (k : Option Text)
      → IsWellFormed s
      → IsWellFormed (store_task_result now s id status result k)
  unfolding store_task_result
  result-IsWellFormed now s id status result k h = elim (Option-cases (entry_of s id k)) [
    | inl n ↦ rw (n, store_task_result) h
    | inr (d, n) ↦
        rw (n, store_task_result)
          (elim (Bool-cases (e.beq d.task.status status)) [
            | inl b ↦ rw b (modify-IsWellFormed s id k _ (λ c. refl) h)
            | inr b ↦ rw b (published-IsWellFormed _ _ (modify-IsWellFormed s id k _ (λ c. refl) h))
          ])
  ]

  status-IsWellFormed :
      (now : Text) (s : TaskStore S Q R M) (id : Text) (status : S) (message : Option Text)
      (k : Option Text)
      → IsWellFormed s
      → IsWellFormed (update_task_status now s id status message k)
  unfolding update_task_status
  status-IsWellFormed now s id status message k h = elim (Option-cases (entry_of s id k)) [
    | inl n ↦ rw (n, update_task_status) h
    | inr (d, n) ↦
        rw (n, update_task_status)
          (elim (Bool-cases (e.beq d.task.status status)) [
            | inl b ↦ rw b (modify-IsWellFormed s id k _ (λ c. refl) h)
            | inr b ↦ rw b (modify-IsWellFormed _ id k _ (λ c. refl) (published-IsWellFormed s _ h))
          ])
  ]

module _ {S Q R M : Type 0} ⦃e : Eq S⦄ (working : S) (is_terminal : S → Bool) where
  unfoldable pub apply : TaskStore S Q R M → Op S Q R M → TaskStore S Q R M
  apply s (create clock id params request k) = (create_task working clock id s params request k).0
  apply s (expire id k) = expire_task s id k
  apply s (subscribe id k channel) = (subscribe_to_task s id k channel).0
  apply s (store_result now id status result k) = store_task_result now s id status result k
  apply s (update_status now id status message k) = update_task_status now s id status message k
  apply s (take_polls now) = (tasks_to_poll now s).0
  apply s (poll id k update) = (poll_task is_terminal s id k update).0
  apply s (schedule_again now l) = re_schedule now s l
  apply s start_polling = or_same (start_task_polling s) s

  unfoldable pub run : TaskStore S Q R M → List (Op S Q R M) → TaskStore S Q R M
  unfolding apply
  run s [] = s
  run s (o ∷ ops) = run (apply s o) ops

  apply-IsWellFormed :
      (s : TaskStore S Q R M) (o : Op S Q R M) → IsWellFormed s → IsWellFormed (apply s o)
  unfolding apply start_task_polling
  apply-IsWellFormed s (create clock id params request k) h =
      create-IsWellFormed working clock id s params request k h
  apply-IsWellFormed s (expire id k) h = expire-IsWellFormed s id k h
  apply-IsWellFormed s (subscribe id k channel) h = subscribe-IsWellFormed s id k channel h
  apply-IsWellFormed s (store_result now id status result k) h =
      result-IsWellFormed now s id status result k h
  apply-IsWellFormed s (update_status now id status message k) h =
      status-IsWellFormed now s id status message k h
  apply-IsWellFormed s (take_polls now) h = polls-IsWellFormed now s h
  apply-IsWellFormed s (poll id k update) h = poll-IsWellFormed is_terminal s id k update h
  apply-IsWellFormed s (schedule_again now l) h = re_schedule-IsWellFormed now s l h
  apply-IsWellFormed s start_polling h = start_unless-IsWellFormed s.is_polling s h

  run_from-IsWellFormed :
      (s : TaskStore S Q R M) (ops : List (Op S Q R M)) → IsWellFormed s → IsWellFormed (run s ops)
  unfolding run
  run_from-IsWellFormed s [] h = h
  run_from-IsWellFormed s (o ∷ ops) h =
      run_from-IsWellFormed (apply s o) ops (apply-IsWellFormed s o h)

  -- Whatever is done with a new task store, in any order, each task in it is stored under its own
  -- id, has its id in the list of its session, and the polls are in the order of their instants.
  pub run-IsWellFormed :
      (page_size default_poll_interval : ℕ) (ops : List (Op S Q R M))
      → IsWellFormed (run (with_options page_size default_poll_interval) ops)
  run-IsWellFormed page_size default_poll_interval ops =
      run_from-IsWellFormed _ ops (new-IsWellFormed page_size default_poll_interval)
