-- ===== src/Tasks/Contents.antt =====
-- What the task store (task_store/in_memory_task_store.rs) has after each operation.
use rust_mcp_sdk.Prelude.{
  ◌≡◌, refl, Bool, true, not, ◌&&◌, Option, none, some, [], ◌∷◌, is_empty, retain, arith,
  if◌then◌else◌, Bool-cases, Option-cases, inl, inr, unwrap_or, ◌>>=◌, Eq,
}
use rust_mcp_sdk.Prelude.Table.{
  Table, lookup, insert, remove, modify, apply_to, IsDistinct, lookup-insert, lookup-modify,
  lookup-remove, lookup-retain, modify-IsDistinct,
}
use rust_mcp_sdk.Prelude.Text.{
  Text, text_eq, text_beq, text_beq_iff, option_text_eq, option_text_beq, option_text_beq_iff,
}
use rust_mcp_sdk.Tasks.{
  TaskEntry, TaskStore, CreateTaskOptions, Clock, entry_of, modify_entry, new_entry, new_task,
  create_task, expire_task, remove_task, get_task, store_task_result, update_task_status,
  with_result, with_status,
}

-- The same task of the same session.
abbrev pub same : Text → Option Text → Text → Option Text → Bool
same id k jd j = option_text_beq k j && text_beq id jd

-- Tables in a table.
module _ {A : Type 0} where
  abbrev lookup_in : Option Text → Text → Table (Option Text) (Table Text A) → Option A
  lookup_in k id t = lookup k t >>= λ m. lookup id m

  lookup_in-insert :
      (k : Option Text) (id : Text) (a : A) (t : Table (Option Text) (Table Text A))
      (j : Option Text) (jd : Text)
      → lookup_in j jd (insert k (insert id a (unwrap_or (lookup k t) [])) t)
        ≡ (if same id k jd j then some a else lookup_in j jd t)
  unfolding lookup
  lookup_in-insert k id a t j jd =
      rw (lookup-insert k j (insert id a (unwrap_or (lookup k t) [])) t)
        (ground (arith, option_text_beq_iff k j, lookup-insert id jd a (unwrap_or (lookup k t) [])))

  lookup_in-modify :
      (k : Option Text) (id : Text) (f : A → A) (t : Table (Option Text) (Table Text A))
      (j : Option Text) (jd : Text)
      → lookup_in j jd (modify k (modify id f) t)
        ≡ (if same id k jd j then apply_to f (lookup_in j jd t) else lookup_in j jd t)
  lookup_in-modify k id f t j jd =
      rw (lookup-modify k j (modify id f) t) (elim (Option-cases (lookup j t)) [
        | inl e ↦ rw e (ground arith)
        | inr (m, e) ↦ rw e (ground (arith, lookup-modify id jd f m))
      ])

  lookup_in-remove :
      (k : Option Text) (id : Text) (t : Table (Option Text) (Table Text A)) (j : Option Text)
      (jd : Text)
      → lookup_in j jd (modify k (remove id) t)
        ≡ (if same id k jd j then none else lookup_in j jd t)
  lookup_in-remove k id t j jd =
      rw (lookup-modify k j (remove id) t) (elim (Option-cases (lookup j t)) [
        | inl e ↦ rw e (ground arith)
        | inr (m, e) ↦ rw e (ground (arith, lookup-remove id jd m))
      ])

  -- A session without tasks may be dropped.
  lookup_in-retain :
      (t : Table (Option Text) (Table Text A)) (j : Option Text) (jd : Text)
      → IsDistinct t
      → lookup_in j jd (retain (λ p. not (is_empty p.1)) t) ≡ lookup_in j jd t
  unfolding lookup
  lookup_in-retain t j jd h =
      rw (lookup-retain (λ p. not (is_empty p.1)) j t h) (elim (Option-cases (lookup j t)) [
        | inl e ↦ rw e refl
        | inr ([], e) ↦ rw e refl
        | inr (a ∷ m, e) ↦ rw e refl
      ])

module _ {S Q R M : Type 0} where
  pub entry_of-create_task :
      (working : S) (clock : Clock) (id : Text) (s : TaskStore S Q R M)
      (params : CreateTaskOptions M) (request : Q) (k : Option Text) (jd : Text) (j : Option Text)
      → entry_of (create_task working clock id s params request k).0 jd j ≡ (
          if same id k jd j
          then some (new_entry working clock id params request)
          else entry_of s jd j)
  unfolding create_task
  entry_of-create_task working clock id s params request k jd j =
      lookup_in-insert k id (new_entry working clock id params request) s.tasks j jd

  pub entry_of-modify_entry :
      (s : TaskStore S Q R M) (id : Text) (k : Option Text)
      (f : TaskEntry S Q R M → TaskEntry S Q R M) (jd : Text) (j : Option Text)
      → entry_of (modify_entry s id k f) jd j
        ≡ (if same id k jd j then apply_to f (entry_of s jd j) else entry_of s jd j)
  entry_of-modify_entry s id k f jd j = lookup_in-modify k id f s.tasks j jd

  pub entry_of-remove_task :
      (s : TaskStore S Q R M) (id : Text) (k : Option Text) (jd : Text) (j : Option Text)
      → entry_of (remove_task s id k).0 jd j ≡ (if same id k jd j then none else entry_of s jd j)
  unfolding remove_task
  entry_of-remove_task s id k jd j = lookup_in-remove k id s.tasks j jd

  pub entry_of-expire_task :
      (s : TaskStore S Q R M) (id : Text) (k : Option Text) (jd : Text) (j : Option Text)
      → IsDistinct s.tasks
      → entry_of (expire_task s id k) jd j ≡ (if same id k jd j then none else entry_of s jd j)
  unfolding expire_task
  entry_of-expire_task s id k jd j h =
      rw
        (lookup_in-retain (modify k (remove id) s.tasks) j jd
          (modify-IsDistinct k (remove id) s.tasks h))
        (lookup_in-remove k id s.tasks j jd)

  -- A write to a task that is not there.
  entry_of-absent :
      (s : TaskStore S Q R M) (id : Text) (k : Option Text)
      (f : TaskEntry S Q R M → TaskEntry S Q R M) (jd : Text) (j : Option Text)
      → entry_of s id k ≡ none
      → entry_of s jd j ≡ (if same id k jd j then apply_to f (entry_of s jd j) else entry_of s jd j)
  entry_of-absent s id k f jd j h = elim (Bool-cases (same id k jd j)) [
    | inl e ↦ rw e (rw (gone e) refl)
    | inr e ↦ rw e refl
  ]
    where
      gone : same id k jd j ≡ true → entry_of s jd j ≡ none
      gone e = ground (arith, option_text_beq_iff k j, text_beq_iff id jd, h)

  -- After a task is created it is found in its session with the status that it was given, and every
  -- other task is what it was.
  pub get_task-create_task :
      (working : S) (clock : Clock) (id : Text) (s : TaskStore S Q R M)
      (params : CreateTaskOptions M) (request : Q) (k : Option Text) (jd : Text) (j : Option Text)
      → get_task (create_task working clock id s params request k).0 jd j
        ≡ (if same id k jd j then some (new_task working clock id params) else get_task s jd j)
  unfolding get_task
  get_task-create_task working clock id s params request k jd j =
      rw (entry_of-create_task working clock id s params request k jd j) (ground arith)

  -- After a task has expired it is not found, and every other task is what it was, although a
  -- session without tasks is dropped.
  pub get_task-expire_task :
      (s : TaskStore S Q R M) (id : Text) (k : Option Text) (jd : Text) (j : Option Text)
      → IsDistinct s.tasks
      → get_task (expire_task s id k) jd j ≡ (if same id k jd j then none else get_task s jd j)
  unfolding get_task
  get_task-expire_task s id k jd j h = rw (entry_of-expire_task s id k jd j h) (ground arith)

module _ {S Q R M : Type 0} ⦃e : Eq S⦄ (now : Text) (s : TaskStore S Q R M) (id : Text)
    (k : Option Text) where
  pub entry_of-store_task_result :
      (status : S) (result : R) (jd : Text) (j : Option Text)
      → entry_of (store_task_result now s id status result k) jd j ≡ (
          if same id k jd j
          then apply_to (with_result status result now) (entry_of s jd j)
          else entry_of s jd j)
  unfolding store_task_result
  entry_of-store_task_result status result jd j = elim (Option-cases (entry_of s id k)) [
    | inl h ↦
        rw (h, store_task_result) (entry_of-absent s id k (with_result status result now) jd j h)
    | inr (entry, h) ↦
        rw (h, store_task_result)
          (elim (Bool-cases (e.beq entry.task.status status)) [
            | inl b ↦ rw b (entry_of-modify_entry s id k (with_result status result now) jd j)
            | inr b ↦ rw b (entry_of-modify_entry s id k (with_result status result now) jd j)
          ])
  ]

  pub entry_of-update_task_status :
      (status : S) (message : Option Text) (jd : Text) (j : Option Text)
      → entry_of (update_task_status now s id status message k) jd j ≡ (
          if same id k jd j
          then apply_to (with_status status message now) (entry_of s jd j)
          else entry_of s jd j)
  unfolding update_task_status
  entry_of-update_task_status status message jd j = elim (Option-cases (entry_of s id k)) [
    | inl h ↦
        rw (h, update_task_status) (entry_of-absent s id k (with_status status message now) jd j h)
    | inr (entry, h) ↦
        rw (h, update_task_status)
          (elim (Bool-cases (e.beq entry.task.status status)) [
            | inl b ↦ rw b (entry_of-modify_entry s id k (with_status status message now) jd j)
            | inr b ↦ rw b (entry_of-modify_entry s id k (with_status status message now) jd j)
          ])
  ]
