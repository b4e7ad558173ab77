-- ===== src/Tasks/Waiting.antt =====
-- Waiting for the result of a task that is polled (task_store/in_memory_task_store.rs).
use rust_mcp_sdk.Prelude.{ℕ, ◌≡◌, refl, ◌∙◌, Bool, true, Option, none, some, ◌>>=◌}
use rust_mcp_sdk.Prelude.Text.{Text, option_text_eq}
use rust_mcp_sdk.Tasks.{
  TaskEntry, TaskStore, entry_of, subscribe_to_task, remove_task, poll_task, get_task,
}
use rust_mcp_sdk.Tasks.Contents.{entry_of-modify_entry, entry_of-remove_task}
use rust_mcp_sdk.Tasks.Status.{same_refl}
use rust_mcp_sdk.Tasks.Listed.{ids_of}

module _ {S Q R M : Type 0} (is_terminal : S → Bool) (s : TaskStore S Q R M) (id : Text)
    (k : Option Text) (d : TaskEntry S Q R M) (found : entry_of s id k ≡ some d) where
  entry_of-subscribe_to_task :
      (c : ℕ)
      → (entry_of (subscribe_to_task s id k c).0 id k ≡ some (record d { result_tx = some c }))
        × ((subscribe_to_task s id k c).1 ≡ some c)
        × (ids_of (subscribe_to_task s id k c).0 k ≡ ids_of s k)
  unfolding subscribe_to_task
  entry_of-subscribe_to_task c =
      rw (found, subscribe_to_task)
        (
          rw (entry_of-modify_entry s id k (λ d. record d { result_tx = some c }) id k)
              (rw (same_refl id k) (rw found refl)),
          refl,
          refl,
        )

  -- What a poll that finds a task done does to a task with its entry.
  poll_task-found :
      (t : TaskStore S Q R M) (b : TaskEntry S Q R M) (status : S) (interval : Option ℕ)
      → entry_of t id k ≡ some b
      → is_terminal status ≡ true
      → (get_task (poll_task is_terminal t id k (some (status, interval))).0 id k ≡ none)
        × ((poll_task is_terminal t id k (some (status, interval))).1 ≡ none)
        × ((poll_task is_terminal t id k (some (status, interval))).2
            ≡ (b.result_tx >>= λ tx. some (tx, status, b.result)))
        × (ids_of (poll_task is_terminal t id k (some (status, interval))).0 k ≡ ids_of t k)
  unfolding poll_task get_task remove_task
  poll_task-found t b status interval e done =
      rw done
        ((rw (entry_of-remove_task t id k id k) (rw (same_refl id k) refl)), refl, rw e refl, refl)

  -- A task that is there and is waited for, when a poll finds it in a terminal status: the waiter is
  -- sent that status and the result that is stored, the task is gone and not polled again, and its
  -- id stays in the list of the session.
  pub poll_task-subscribe_to_task :
      (c : ℕ) (status : S) (interval : Option ℕ)
      → is_terminal status ≡ true
      → let polled =
          poll_task is_terminal (subscribe_to_task s id k c).0 id k (some (status, interval)) in
        (get_task polled.0 id k ≡ none)
        × (polled.1 ≡ none)
        × (polled.2 ≡ some (c, status, d.result))
        × (ids_of polled.0 k ≡ ids_of s k)
  poll_task-subscribe_to_task c status interval done =
      let (gone, again, sent, kept) =
        poll_task-found (subscribe_to_task s id k c).0 (record d { result_tx = some c }) status
          interval (entry_of-subscribe_to_task c).0 done in
      (gone, again, sent, kept ∙ (entry_of-subscribe_to_task c).2)
