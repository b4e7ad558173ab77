-- ===== src/Tasks/Status.antt =====
-- Results, statuses and their notifications (task_store/in_memory_task_store.rs).
use rust_mcp_sdk.Prelude.{
  ◌≡◌, refl, true, false, Option, none, some, [], ◌∷◌, ◌++◌, arith, if◌then◌else◌, Bool-cases, inl,
  inr, Eq,
}
use rust_mcp_sdk.Prelude.Text.{Text, text_eq, text_beq_iff, option_text_eq, option_text_beq_iff}
use rust_mcp_sdk.Tasks.{
  TaskEntry, TaskStore, entry_of, get_task, get_task_result, store_task_result, update_task_status,
  with_result, params_of,
}
use rust_mcp_sdk.Tasks.Contents.{same, entry_of-store_task_result, entry_of-update_task_status}

pub same_refl : (id : Text) (k : Option Text) → same id k id k ≡ true
same_refl id k = ground (arith, option_text_beq_iff k k, text_beq_iff id id)

module _ {S Q R M : Type 0} ⦃e : Eq S⦄ (now : Text) (s : TaskStore S Q R M) (id : Text)
    (k : Option Text) (entry : TaskEntry S Q R M) (found : entry_of s id k ≡ some entry) where
  found_same : (jd : Text) (j : Option Text) → same id k jd j ≡ true → entry_of s jd j ≡ some entry
  found_same jd j h = ground (arith, option_text_beq_iff k j, text_beq_iff id jd, found)

  get_task-update_task_status :
      (status : S) (message : Option Text)
      → get_task (update_task_status now s id status message k) id k
        ≡ some
            (record entry.task { status = status; status_message = message; last_updated_at = now })
  unfolding get_task
  get_task-update_task_status status message =
      rw (entry_of-update_task_status now s id k status message id k)
        (rw (same_refl id k) (rw found refl))

  -- What is broadcast when a result is stored: what the task then is, if its status has changed.
  published-store_task_result :
      (status : S) (result : R)
      → (store_task_result now s id status result k).published ≡ (
          if e.beq entry.task.status status
          then s.published
          else s.published ++ (params_of (with_result status result now entry), k) ∷ [])
  unfolding store_task_result
  published-store_task_result status result =
      rw (found, store_task_result)
        (elim (Bool-cases (e.beq entry.task.status status)) [
          | inl b ↦ rw b refl
          | inr b ↦ rw b refl
        ])

  -- Once a result is stored for a task that is there, the task's result is that one and its status
  -- the one given, without a message; no other task has another result; and a notification is
  -- broadcast exactly when the status has changed, with the task as it then is.
  pub get_task_result-store_task_result :
      (status : S) (result : R) (jd : Text) (j : Option Text)
      → (get_task_result (store_task_result now s id status result k) jd j
          ≡ (if same id k jd j then some result else get_task_result s jd j))
        × (get_task (store_task_result now s id status result k) id k
            ≡ some (record entry.task {
              status = status;
              last_updated_at = now;
              status_message = none;
            }))
        × ((store_task_result now s id status result k).published ≡ (
            if e.beq entry.task.status status
            then s.published
            else s.published ++ (params_of (with_result status result now entry), k) ∷ []))
  unfolding get_task_result get_task
  get_task_result-store_task_result status result jd j = (
    rw (entry_of-store_task_result now s id k status result jd j)
        (elim (Bool-cases (same id k jd j)) [
          | inl b ↦ rw b (rw (found_same jd j b) refl)
          | inr b ↦ rw b refl
        ]),
    rw (entry_of-store_task_result now s id k status result id k)
        (rw (same_refl id k) (rw found refl)),
    published-store_task_result status result,
  )

  -- When the status of a task changes, the notification that is broadcast has the status, message
  -- and time of the task before the change, while the task has those that were given.
  pub published-update_task_status :
      (status : S) (message : Option Text)
      → e.beq entry.task.status status ≡ false
      → ((update_task_status now s id status message k).published
          ≡ s.published ++ (params_of entry, k) ∷ [])
        × (get_task (update_task_status now s id status message k) id k
            ≡ some (record entry.task {
              status = status;
              status_message = message;
              last_updated_at = now;
            }))
  unfolding update_task_status
  published-update_task_status status message b =
      (rw (found, update_task_status) (rw b refl), get_task-update_task_status status message)
