-- ===== src/Tasks/Listed.antt =====
-- What holds of a task store (task_store/in_memory_task_store.rs) after any operations.
use rust_mcp_sdk.Prelude.{
  ◌≡◌, refl, ◌∙◌, sym, Bool, true, false, not, Option, none, some, List, [], ◌∷◌, any, is_some,
  is_empty, arith, if◌then◌else◌, Option-cases, inl, inr, unwrap_or, retain,
}
use rust_mcp_sdk.Prelude.Table.{
  Table, lookup, IsDistinct, lookup-insert, lookup-modify, lookup-retain, insert-IsDistinct,
  modify-IsDistinct, retain-IsDistinct,
}
use rust_mcp_sdk.Prelude.Text.{
  Text, text_eq, text_beq, text_beq_iff, option_text_eq, option_text_beq, option_text_beq_iff,
}
use rust_mcp_sdk.Tasks.{
  TaskEntry, TaskStore, StatusParams, CreateTaskOptions, Clock, entry_of, modify_entry, remove_id,
  create_task, expire_task, remove_task, schedule_poll,
}
use rust_mcp_sdk.Tasks.Contents.{
  same, entry_of-create_task, entry_of-modify_entry, entry_of-remove_task, entry_of-expire_task,
}
use rust_mcp_sdk.Tasks.Schedule.{ScheduledPoll}
use rust_mcp_sdk.Tasks.Polling.{IsOrdered, push_poll-IsOrdered}

abbrev pub IsSchedule : Option (List ScheduledPoll) → Type 0
IsSchedule none = Unit
IsSchedule (some l) = IsOrdered l

abbrev pub is_listed : Text → List Text → Bool
is_listed id l = any (λ i. text_beq i id) l

schedule_poll-IsSchedule :
    (o : Option (List ScheduledPoll)) (p : ScheduledPoll)
    → IsSchedule o
    → IsSchedule (schedule_poll o p)
schedule_poll-IsSchedule none p h = tt
schedule_poll-IsSchedule (some l) p h = push_poll-IsOrdered p l h

is_listed-remove_id :
    (id jd : Text) (l : List Text)
    → text_beq id jd ≡ false
    → is_listed jd (remove_id id l) ≡ is_listed jd l
is_listed-remove_id id jd [] h = refl
is_listed-remove_id id jd (i ∷ l) h =
    ground (arith, text_beq_iff i id, is_listed-remove_id id jd l h)

-- A session without ids may be dropped.
unwrap_or-retain :
    (j : Option Text) (t : Table (Option Text) (List Text))
    → IsDistinct t
    → unwrap_or (lookup j (retain (λ p. not (is_empty p.1)) t)) [] ≡ unwrap_or (lookup j t) []
unwrap_or-retain j t h =
    rw (lookup-retain (λ p. not (is_empty p.1)) j t h) (elim (Option-cases (lookup j t)) [
      | inl e ↦ rw e refl
      | inr ([], e) ↦ rw e refl
      | inr (i ∷ l, e) ↦ rw e refl
    ])

module _ {S Q R M : Type 0} where
  abbrev pub ids_of : TaskStore S Q R M → Option Text → List Text
  ids_of s k = unwrap_or (lookup k s.ordered_task_ids) []

  -- Each task is stored under its own id and is listed in its session, the polls are in order, and
  -- no session has two entries.
  pub record IsWellFormed (s : TaskStore S Q R M) : Type 0 where
    pub listed :
        (id : Text) (k : Option Text)
        → is_some (entry_of s id k) ≡ true
        → is_listed id (ids_of s k) ≡ true
    pub named :
        (id : Text) (k : Option Text) (d : TaskEntry S Q R M)
        → entry_of s id k ≡ some d
        → d.task.task_id ≡ id
    pub scheduled : IsSchedule s.poll_schedule
    pub tasks_distinct : IsDistinct s.tasks
    pub ids_distinct : IsDistinct s.ordered_task_ids

  pub modify-IsWellFormed :
      (s : TaskStore S Q R M) (id : Text) (k : Option Text)
      (f : TaskEntry S Q R M → TaskEntry S Q R M)
      → ((d : TaskEntry S Q R M) → (f d).task.task_id ≡ d.task.task_id)
      → IsWellFormed s
      → IsWellFormed (modify_entry s id k f)
  modify-IsWellFormed s id k f keeps h = record {
    listed = λ jd j there. h.listed jd j (ground (arith, entry_of-modify_entry s id k f jd j));
    named = λ jd j d there. elim (Option-cases (entry_of s jd j)) [
      | inl e ↦ ground (arith, e, entry_of-modify_entry s id k f jd j)
      | inr (c, e) ↦
          ground (arith, e, entry_of-modify_entry s id k f jd j, keeps c, h.named jd j c e)
    ];
    scheduled = h.scheduled;
    tasks_distinct = modify-IsDistinct k _ s.tasks h.tasks_distinct;
    ids_distinct = h.ids_distinct;
  }

  pub published-IsWellFormed :
      (s : TaskStore S Q R M) (l : List (StatusParams S M × Option Text))
      → IsWellFormed s
      → IsWellFormed (record s { published = l })
  published-IsWellFormed s l h = record {
    listed = h.listed;
    named = h.named;
    scheduled = h.scheduled;
    tasks_distinct = h.tasks_distinct;
    ids_distinct = h.ids_distinct;
  }

  pub schedule-IsWellFormed :
      (s : TaskStore S Q R M) (l : List ScheduledPoll)
      → IsOrdered l
      → IsWellFormed s
      → IsWellFormed (record s { poll_schedule = some l })
  schedule-IsWellFormed s l o h = record {
    listed = h.listed;
    named = h.named;
    scheduled = o;
    tasks_distinct = h.tasks_distinct;
    ids_distinct = h.ids_distinct;
  }

  pub remove-IsWellFormed :
      (s : TaskStore S Q R M) (id : Text) (k : Option Text)
      → IsWellFormed s
      → IsWellFormed (remove_task s id k).0
  unfolding remove_task
  remove-IsWellFormed s id k h = record {
    listed = λ jd j there. h.listed jd j (ground (arith, entry_of-remove_task s id k jd j));
    named = λ jd j d there. h.named jd j d (ground (arith, entry_of-remove_task s id k jd j));
    scheduled = h.scheduled;
    tasks_distinct = modify-IsDistinct k _ s.tasks h.tasks_distinct;
    ids_distinct = h.ids_distinct;
  }

  ids_of-expire_task :
      (s : TaskStore S Q R M) (id : Text) (k j : Option Text)
      → IsDistinct s.ordered_task_ids
      → ids_of (expire_task s id k) j
        ≡ (if option_text_beq k j then remove_id id (ids_of s j) else ids_of s j)
  unfolding expire_task
  ids_of-expire_task s id k j h =
      unwrap_or-retain j _ (modify-IsDistinct k _ s.ordered_task_ids h)
      ∙ rw (lookup-modify k j (remove_id id) s.ordered_task_ids)
          (elim (Option-cases (lookup j s.ordered_task_ids)) [
            | inl e ↦ rw e (ground arith)
            | inr (l, e) ↦ rw e (ground arith)
          ])

  expire_listed :
      (s : TaskStore S Q R M) (id : Text) (k : Option Text)
      → IsWellFormed s
      → (jd : Text) (j : Option Text)
      → is_some (if same id k jd j then none else entry_of s jd j) ≡ true
      → is_listed jd (if option_text_beq k j then remove_id id (ids_of s j) else ids_of s j) ≡ true
  expire_listed s id k h jd j there =
      ground (arith, h.listed jd j, is_listed-remove_id id jd (ids_of s j))

  pub expire-IsWellFormed :
      (s : TaskStore S Q R M) (id : Text) (k : Option Text)
      → IsWellFormed s
      → IsWellFormed (expire_task s id k)
  unfolding expire_task
  expire-IsWellFormed s id k h = record {
    listed = λ jd j there. rw (ids_of-expire_task s id k j h.ids_distinct) (
        expire_listed s id k h jd j
          (rw (sym (entry_of-expire_task s id k jd j h.tasks_distinct)) there));
    named = λ jd j d there.
        h.named jd j d (ground (arith, entry_of-expire_task s id k jd j h.tasks_distinct));
    scheduled = h.scheduled;
    tasks_distinct = retain-IsDistinct _ _ (modify-IsDistinct k _ s.tasks h.tasks_distinct);
    ids_distinct = retain-IsDistinct _ _ (modify-IsDistinct k _ s.ordered_task_ids h.ids_distinct);
  }

  pub create-IsWellFormed :
      (working : S) (clock : Clock) (id : Text) (s : TaskStore S Q R M)
      (params : CreateTaskOptions M) (request : Q) (k : Option Text)
      → IsWellFormed s
      → IsWellFormed (create_task working clock id s params request k).0
  unfolding create_task
  create-IsWellFormed working clock id s params request k h = record {
    listed = λ jd j there. rw (lookup-insert k j _ s.ordered_task_ids) (
        ground (
          arith,
          entry_of-create_task working clock id s params request k jd j,
          h.listed jd j,
          option_text_beq_iff k j,
          text_beq_iff id jd,
        ));
    named = λ jd j d there. ground (
      arith,
      entry_of-create_task working clock id s params request k jd j,
      h.named jd j d,
      text_beq_iff id jd,
    );
    scheduled = schedule_poll-IsSchedule s.poll_schedule _ h.scheduled;
    tasks_distinct = insert-IsDistinct k _ s.tasks h.tasks_distinct;
    ids_distinct = insert-IsDistinct k _ s.ordered_task_ids h.ids_distinct;
  }
