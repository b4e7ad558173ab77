-- ===== src/Tasks/Tests.antt =====
-- The task store at concrete inputs: statuses are numbers, where 0 is working and 3 completed.
use rust_mcp_sdk.Prelude.{
  ℕ, ◌≡◌, refl, ◌+◌, ◌==◌, ==_iff, false, not, Option, none, some, List, [], ◌∷◌, map, retain,
  arith, if◌then◌else◌, Eq,
}
use rust_mcp_sdk.Prelude.Table.{lookup, IsDistinct}
use rust_mcp_sdk.Prelude.Text.{Text, text_eq, text_beq, option_text_eq, option_text_beq, codes}
use rust_mcp_sdk.Tasks.{
  TaskEntry, TaskStore, CreateTaskOptions, Clock, create_task, expire_task, get_task,
  get_task_result, store_task_result, update_task_status, tasks_to_poll, poll_task, tasks_of,
  subscribe_to_task, with_options, with_result, params_of, new_task, entry_of,
}
use rust_mcp_sdk.Tasks.Schedule.{ScheduledPoll}
use rust_mcp_sdk.Tasks.Polling.{is_due, tasks_to_poll-IsOrdered}
use rust_mcp_sdk.Tasks.Pages.{all_pages, all_pages-tasks_of}
use rust_mcp_sdk.Tasks.Contents.{same, get_task-create_task, get_task-expire_task}
use rust_mcp_sdk.Tasks.Status.{get_task_result-store_task_result, published-update_task_status}
use rust_mcp_sdk.Tasks.Listed.{IsWellFormed, ids_of}
use rust_mcp_sdk.Tasks.Waiting.{poll_task-subscribe_to_task}
use rust_mcp_sdk.Tasks.Runs.{Op, create, expire, store_result, take_polls, run, run-IsWellFormed}

instance abbrev nat_eq : Eq ℕ
nat_eq = record { beq = ◌==◌; beq_iff = ==_iff }

abbrev Store : Type 0
Store = TaskStore ℕ Text Text Text

abbrev noon : Clock
noon = record { instant = 1000; iso8601 = codes "12:00"; unix_after = λ ttl. 1000 + ttl }

abbrev no_options : CreateTaskOptions Text
no_options = record { ttl = none; poll_interval = some 500; meta = none }

abbrev a_task : Text → TaskEntry ℕ Text Text Text
a_task id = record {
  task = record {
    task_id = id;
    created_at = codes "12:00";
    status = 0;
    poll_interval = some 500;
    ttl = none;
    status_message = some (codes "busy");
    last_updated_at = codes "12:00";
  };
  request = codes "request";
  result = none;
  expires_at = none;
  meta = none;
  result_tx = none;
}

abbrev session : Option Text
session = some (codes "s")

abbrev ids : List Text
ids = codes "c" ∷ codes "b" ∷ codes "a" ∷ []

abbrev polls : List ScheduledPoll
polls = (1500, codes "a", session) ∷ (1600, codes "b", session) ∷ (1700, codes "c", session) ∷ []

abbrev held : Store
held = record {
  tasks =
      (
        session,
        (codes "a", a_task (codes "a"))
            ∷ (codes "b", a_task (codes "b"))
            ∷ (codes "c", a_task (codes "c"))
            ∷ [],
      )
      ∷ [];
  ordered_task_ids = (session, ids) ∷ [];
  poll_schedule = some polls;
  page_size = 2;
  default_poll_interval = 1250;
  published = [];
  is_polling = false;
}

found_b : entry_of held (codes "b") session ≡ some (a_task (codes "b"))
unfolding lookup text_beq option_text_beq
found_b = refl

all_pages-tasks_of_example : all_pages held session 3 none ≡ tasks_of held session ids
unfolding lookup text_beq option_text_beq
all_pages-tasks_of_example =
    all_pages-tasks_of held session (omega arith) 3 ids refl (refl, (refl, (refl, tt)))
      (omega arith)

get_task-create_task_example :
    get_task
      (create_task 0 noon (codes "d") held no_options (codes "r") session).0
      (codes "a")
      session
    ≡ (if same (codes "d") session (codes "a") session
        then some (new_task 0 noon (codes "d") no_options)
        else get_task held (codes "a") session)
get_task-create_task_example =
    get_task-create_task 0 noon (codes "d") held no_options (codes "r") session (codes "a") session

held-IsDistinct : IsDistinct held.tasks
unfolding lookup
held-IsDistinct = (refl, tt)

get_task-expire_task_example :
    get_task (expire_task held (codes "b") session) (codes "a") session ≡ (
      if same (codes "b") session (codes "a") session
      then none
      else get_task held (codes "a") session)
get_task-expire_task_example =
    get_task-expire_task held (codes "b") session (codes "a") session held-IsDistinct

abbrev stored : Store
stored = store_task_result (codes "12:30") held (codes "b") 3 (codes "done") session

get_task_result-store_task_result_example :
    (get_task_result stored (codes "a") session ≡ (
      if same (codes "b") session (codes "a") session
      then some (codes "done")
      else get_task_result held (codes "a") session))
    × (get_task stored (codes "b") session
        ≡ some (record (a_task (codes "b")).task {
          status = 3;
          last_updated_at = codes "12:30";
          status_message = none;
        }))
    × (stored.published
        ≡ (params_of (with_result 3 (codes "done") (codes "12:30") (a_task (codes "b"))), session)
          ∷ [])
get_task_result-store_task_result_example =
    get_task_result-store_task_result (codes "12:30") held (codes "b") session (a_task (codes "b"))
      found_b 3 (codes "done") (codes "a") session

abbrev updated : Store
updated = update_task_status (codes "12:30") held (codes "b") 3 none session

published-update_task_status_example :
    (updated.published ≡ (params_of (a_task (codes "b")), session) ∷ [])
    × (get_task updated (codes "b") session
        ≡ some (record (a_task (codes "b")).task {
          status = 3;
          status_message = none;
          last_updated_at = codes "12:30";
        }))
published-update_task_status_example =
    published-update_task_status (codes "12:30") held (codes "b") session (a_task (codes "b"))
      found_b 3 none refl

tasks_to_poll-IsOrdered_example :
    ((tasks_to_poll 1600 held).1 ≡ map (λ p. (p.1, p.2)) (retain (is_due 1600) polls))
    × ((tasks_to_poll 1600 held).0.poll_schedule ≡ some (retain (λ p. not (is_due 1600 p)) polls))
tasks_to_poll-IsOrdered_example =
    tasks_to_poll-IsOrdered 1600 held polls refl
      ((omega arith, (omega arith, tt)), ((omega arith, tt), (tt, tt)))

abbrev waited : Store × Option (Text × Option Text × ℕ) × Option (ℕ × ℕ × Option Text)
waited =
    poll_task (λ status. status == 3) (subscribe_to_task held (codes "b") session 7).0 (codes "b")
      session (some (3, none))

poll_task-subscribe_to_task_example :
    (get_task waited.0 (codes "b") session ≡ none)
    × (waited.1 ≡ none)
    × (waited.2 ≡ some (7, 3, none))
    × (ids_of waited.0 session ≡ ids_of held session)
poll_task-subscribe_to_task_example =
    poll_task-subscribe_to_task (λ status. status == 3) held (codes "b") session
      (a_task (codes "b")) found_b 7 3 none refl

abbrev ops : List (Op ℕ Text Text Text)
ops =
    create noon (codes "a") no_options (codes "r") session
    ∷ create noon (codes "b") no_options (codes "r") none
    ∷ store_result (codes "12:30") (codes "a") 3 (codes "done") session
    ∷ take_polls 1500
    ∷ expire (codes "a") session
    ∷ []

run-IsWellFormed_example : IsWellFormed (run 0 (λ status. status == 3) (with_options 2 1250) ops)
run-IsWellFormed_example = run-IsWellFormed 0 (λ status. status == 3) 2 1250 ops
