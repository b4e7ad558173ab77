-- ===== src/Tasks.antt =====
-- The in-memory task store: crates/rust-mcp-sdk/src/task_store/in_memory_task_store.rs. A method
-- under the write lock returns the new store. The clock's readings and the generated id are
-- arguments. The schema's status type, its test for a terminal status and its `working` are
-- parameters. An `i64` stands for its bit pattern, so that the cast to `u64` is the identity.
-- What is broadcast is appended to `published`; what subscribers receive of it is not modelled.
pub mod Schedule
pub mod Polling
pub mod Pages
pub mod Contents
pub mod Status
pub mod Listed
pub mod Waiting
pub mod Runs
mod Tests
use rust_mcp_sdk.Prelude.{
  ℕ, zero, suc, ◌+◌, ◌-◌, ◌*◌, ◌%◌, ◌^◌, min, Bool, true, false, not, Option, none, some, List, [],
  ◌∷◌, ◌++◌, length, get_elem?, take, drop, retain, position, is_empty, leb, ltb, ◌==◌,
  if◌then◌else◌, is_some, unwrap_or, ◌>>=◌, Eq,
}
use rust_mcp_sdk.Prelude.Table.{Table, lookup, insert, remove, modify}
use rust_mcp_sdk.Tasks.Schedule.{
  ScheduledPoll, push_poll, next_poll_at, as_i64, pop_due, push_all, schedule_poll,
}
use rust_mcp_sdk.Prelude.Text.{Text, text_eq, text_beq, option_text_eq, text_leb, option_text_leb}

-- `Task`, as `create_task` fills it.
pub record Task (Status : Type 0) : Type 0 where
  pub task_id : Text
  pub created_at : Text
  pub status : Status
  pub poll_interval : Option ℕ
  pub ttl : Option ℕ
  pub status_message : Option Text
  pub last_updated_at : Text

-- `TaskStatusNotificationParams`, as `notify_status_change` fills it.
pub record StatusParams (Status Meta : Type 0) : Type 0 where
  pub created_at : Text
  pub last_updated_at : Text
  pub meta : Option Meta
  pub poll_interval : Option ℕ
  pub status : Status
  pub status_message : Option Text
  pub task_id : Text
  pub ttl : Option ℕ

pub record CreateTaskOptions (Meta : Type 0) : Type 0 where
  pub ttl : Option ℕ
  pub poll_interval : Option ℕ
  pub meta : Option Meta

-- `result_tx` is the number of the waiter's channel.
pub record TaskEntry (Status Req Res Meta : Type 0) : Type 0 where
  pub task : Task Status
  pub request : Req
  pub result : Option Res
  pub expires_at : Option ℕ
  pub meta : Option Meta
  pub result_tx : Option ℕ

-- The heap is the list of its elements in ascending order.
pub record TaskStore (Status Req Res Meta : Type 0) : Type 0 where
  pub tasks : Table (Option Text) (Table Text (TaskEntry Status Req Res Meta))
  pub ordered_task_ids : Table (Option Text) (List Text)
  pub poll_schedule : Option (List ScheduledPoll)
  pub page_size : ℕ
  pub default_poll_interval : ℕ
  pub published : List (StatusParams Status Meta × Option Text)
  pub is_polling : Bool

pub record ListTasksResult (Status : Type 0) : Type 0 where
  pub tasks : List (Task Status)
  pub next_cursor : Option Text

-- What one call reads of the clocks: the instant, the time as a text, and the Unix time after a
-- time to live.
pub record Clock : Type 0 where
  pub instant : ℕ
  pub iso8601 : Text
  pub unix_after : ℕ → ℕ

-- `Vec::remove` at the position of an id.
abbrev pub remove_id : Text → List Text → List Text
remove_id id [] = []
remove_id id (i ∷ l) = if text_beq i id then l else i ∷ remove_id id l

abbrev pub start_index : Option Text → List Text → ℕ
start_index none ids = 0
start_index (some c) ids = unwrap_or (position (λ id. text_beq id c) ids) 0

abbrev pub params_of : {S Q R M : Type 0} → TaskEntry S Q R M → StatusParams S M
params_of entry = record {
  created_at = entry.task.created_at;
  last_updated_at = entry.task.last_updated_at;
  meta = entry.meta;
  poll_interval = entry.task.poll_interval;
  status = entry.task.status;
  status_message = entry.task.status_message;
  task_id = entry.task.task_id;
  ttl = entry.task.ttl;
}

abbrev pub new_task : {S M : Type 0} → S → Clock → Text → CreateTaskOptions M → Task S
new_task working clock task_id params = record {
  task_id = task_id;
  created_at = clock.iso8601;
  status = working;
  poll_interval = params.poll_interval;
  ttl = params.ttl;
  status_message = none;
  last_updated_at = clock.iso8601;
}

abbrev expires : Clock → Option ℕ → Option ℕ
expires clock none = none
expires clock (some ttl) = some (clock.unix_after ttl)

abbrev pub new_entry :
    {S Q R M : Type 0} → S → Clock → Text → CreateTaskOptions M → Q → TaskEntry S Q R M
new_entry working clock task_id params request = record {
  task = new_task working clock task_id params;
  request = request;
  result = none;
  expires_at = expires clock params.ttl;
  meta = params.meta;
  result_tx = none;
}

-- Over the types of statuses, requests, results and metadata.
module _ {S Q R M : Type 0} where
  unfoldable pub with_options : ℕ → ℕ → TaskStore S Q R M
  with_options page_size default_poll_interval = record {
    tasks = [];
    ordered_task_ids = [];
    poll_schedule = some [];
    page_size = page_size;
    default_poll_interval = default_poll_interval;
    published = [];
    is_polling = false;
  }

  -- The inner store's `get_task`.
  abbrev pub entry_of : TaskStore S Q R M → Text → Option Text → Option (TaskEntry S Q R M)
  entry_of s task_id session_id = lookup session_id s.tasks >>= λ m. lookup task_id m

  -- A write through the two `get_mut`.
  abbrev pub modify_entry :
      TaskStore S Q R M
      → Text
      → Option Text
      → (TaskEntry S Q R M → TaskEntry S Q R M)
      → TaskStore S Q R M
  modify_entry s task_id session_id f = record s {
    tasks = modify session_id (modify task_id f) s.tasks;
  }

  abbrev pub notify_status_change :
      TaskStore S Q R M → TaskEntry S Q R M → Option Text → TaskStore S Q R M
  notify_status_change s entry session_id = record s {
    published = s.published ++ (params_of entry, session_id) ∷ [];
  }

  abbrev task_of : Option (TaskEntry S Q R M) → Option (Task S)
  task_of none = none
  task_of (some entry) = some entry.task

  abbrev pub with_result : S → R → Text → TaskEntry S Q R M → TaskEntry S Q R M
  with_result status result now entry = record entry {
    task = record entry.task { status = status; last_updated_at = now; status_message = none };
    result = some result;
  }

  abbrev pub with_status : S → Option Text → Text → TaskEntry S Q R M → TaskEntry S Q R M
  with_status status status_message now entry = record entry {
    task = record entry.task {
      status = status;
      status_message = status_message;
      last_updated_at = now;
    };
  }

  -- The cleanup that is spawned for a task with a time to live is `expire_task`.
  unfoldable pub create_task :
      S
      → Clock
      → Text
      → TaskStore S Q R M
      → CreateTaskOptions M
      → Q
      → Option Text
      → TaskStore S Q R M × Task S
  create_task working clock task_id s params request session_id =
      let entry = new_entry working clock task_id params request in
      let interval = unwrap_or params.poll_interval (as_i64 s.default_poll_interval) in
      (
        record s {
          poll_schedule =
              schedule_poll s.poll_schedule
                (next_poll_at clock.instant interval, task_id, session_id);
          tasks =
              insert session_id (insert task_id entry (unwrap_or (lookup session_id s.tasks) []))
                s.tasks;
          ordered_task_ids =
              insert session_id (task_id ∷ unwrap_or (lookup session_id s.ordered_task_ids) [])
                s.ordered_task_ids;
        },
        entry.task,
      )

  unfoldable pub remove_task :
      TaskStore S Q R M → Text → Option Text → TaskStore S Q R M × Option (TaskEntry S Q R M)
  remove_task s task_id session_id = (
    record s { tasks = modify session_id (remove task_id) s.tasks },
    entry_of s task_id session_id,
  )

  -- A waiter takes the place of the one before.
  unfoldable pub subscribe_to_task :
      TaskStore S Q R M → Text → Option Text → ℕ → TaskStore S Q R M × Option ℕ
  subscribe_to_task s task_id session_id channel = elim (entry_of s task_id session_id) [
    | none ↦ (s, none)
    | some entry ↦ (
      modify_entry s task_id session_id (λ d. record d { result_tx = some channel }),
      some channel,
    )
  ]

  unfoldable pub get_task : TaskStore S Q R M → Text → Option Text → Option (Task S)
  get_task s task_id session_id = task_of (entry_of s task_id session_id)

  unfoldable pub get_task_result : TaskStore S Q R M → Text → Option Text → Option R
  get_task_result s task_id session_id = entry_of s task_id session_id >>= λ d. d.result

  -- The cleanup of a task whose time to live is over.
  unfoldable pub expire_task : TaskStore S Q R M → Text → Option Text → TaskStore S Q R M
  expire_task s task_id session_id = record s {
    tasks = retain (λ t. not (is_empty t.1)) (modify session_id (remove task_id) s.tasks);
    ordered_task_ids =
        retain (λ t. not (is_empty t.1)) (modify session_id (remove_id task_id) s.ordered_task_ids);
  }

  -- The tasks of a page, less the ids that have none.
  unfoldable pub tasks_of : TaskStore S Q R M → Option Text → List Text → List (Task S)
  tasks_of s session_id [] = []
  tasks_of s session_id (id ∷ l) =
      let rest = tasks_of s session_id l in
      elim (get_task s id session_id) [ none ↦ rest | some task ↦ task ∷ rest ]

  -- One page of the ids of a session. The sum of the start and the page size is taken not to
  -- overflow a `usize`.
  unfoldable pub list_page :
      TaskStore S Q R M → Option Text → Option Text → List Text → ListTasksResult S
  list_page s cursor session_id ids =
      let start_idx = start_index cursor ids in
      let end_idx = min (start_idx + s.page_size) (length ids) in
      record {
        tasks = tasks_of s session_id (take s.page_size (drop start_idx ids));
        next_cursor = if ltb end_idx (length ids) then get_elem? ids end_idx else none;
      }

  unfoldable pub list_tasks : TaskStore S Q R M → Option Text → Option Text → ListTasksResult S
  unfolding list_page
  list_tasks s cursor session_id = elim (lookup session_id s.ordered_task_ids) [
    | none ↦ record { tasks = []; next_cursor = none }
    | some ids ↦ list_page s cursor session_id ids
  ]

  abbrev pub polls_from :
      ℕ
      → TaskStore S Q R M
      → Option (List ScheduledPoll)
      → TaskStore S Q R M × List (Text × Option Text)
  polls_from now s none = (s, [])
  polls_from now s (some schedule) =
      let popped = pop_due now schedule in (record s { poll_schedule = some popped.1 }, popped.0)

  unfoldable pub tasks_to_poll :
      ℕ → TaskStore S Q R M → TaskStore S Q R M × List (Text × Option Text)
  tasks_to_poll now s = polls_from now s s.poll_schedule

  abbrev pub re_schedule_in :
      ℕ
      → TaskStore S Q R M
      → List (Text × Option Text × ℕ)
      → Option (List ScheduledPoll)
      → TaskStore S Q R M
  re_schedule_in now s l none = s
  re_schedule_in now s l (some schedule) = record s {
    poll_schedule = some (push_all now l schedule);
  }

  unfoldable pub re_schedule :
      ℕ → TaskStore S Q R M → List (Text × Option Text × ℕ) → TaskStore S Q R M
  re_schedule now s l = re_schedule_in now s l s.poll_schedule

  -- What a poll of one task does: the new store, the task to poll again with its interval, and
  -- what a waiter is sent. No update stands for an error of the callback.
  unfoldable pub poll_task :
      (S → Bool)
      → TaskStore S Q R M
      → Text
      → Option Text
      → Option (S × Option ℕ)
      → TaskStore S Q R M × Option (Text × Option Text × ℕ) × Option (ℕ × S × Option R)
  poll_task is_terminal s task_id session_id none = elim (entry_of s task_id session_id) [
    | none ↦ (s, none, none)
    | some entry ↦
        let interval = unwrap_or entry.task.poll_interval (as_i64 s.default_poll_interval) in
        (s, some (task_id, session_id, interval), none)
  ]
  poll_task is_terminal s task_id session_id (some (status, poll_interval)) =
      let interval = unwrap_or poll_interval (as_i64 s.default_poll_interval) in
      let removed = remove_task s task_id session_id in
      let sent = removed.1 >>= λ entry. entry.result_tx >>= λ tx. some (tx, status, entry.result) in
      if is_terminal status
      then (removed.0, none, sent)
      else (s, some (task_id, session_id, interval), none)

  unfoldable pub next_sleep_duration : ℕ → TaskStore S Q R M → ℕ
  next_sleep_duration now s = elim s.poll_schedule [
    | none ↦ 1250
    | some [] ↦ 1250
    | some (p ∷ schedule) ↦ p.0 - now
  ]

  abbrev pub start_unless : Bool → TaskStore S Q R M → Option (TaskStore S Q R M)
  start_unless true s = none
  start_unless false s = some (record s { is_polling = true })

  -- Polling starts once: no store stands for the error.
  unfoldable pub start_task_polling : TaskStore S Q R M → Option (TaskStore S Q R M)
  start_task_polling s = start_unless s.is_polling s

module _ {S Q R M : Type 0} ⦃e : Eq S⦄ where
  unfoldable pub store_task_result :
      Text → TaskStore S Q R M → Text → S → R → Option Text → TaskStore S Q R M
  store_task_result now s task_id status result session_id = elim (entry_of s task_id session_id) [
    | none ↦ s
    | some entry ↦
        let stored = modify_entry s task_id session_id (with_result status result now) in
        if e.beq entry.task.status status
        then stored
        else notify_status_change stored (with_result status result now entry) session_id
  ]

  -- The notification is made before the entry is written.
  unfoldable pub update_task_status :
      Text → TaskStore S Q R M → Text → S → Option Text → Option Text → TaskStore S Q R M
  update_task_status now s task_id status status_message session_id =
      elim (entry_of s task_id session_id) [
        | none ↦ s
        | some entry ↦
            let notified =
              if e.beq entry.task.status status
              then s
              else notify_status_change s entry session_id in
            modify_entry notified task_id session_id (with_status status status_message now)
      ]
