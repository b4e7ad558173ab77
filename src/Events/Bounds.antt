-- ===== src/Events/Bounds.antt =====
-- The capacity of a session's queue (in_memory_event_store.rs), over any operations.
use mathlib.Core.Path.{subst}
use rust_mcp_sdk.Prelude.{
  ℕ, ◌+◌, ◌≤◌, ◌<◌, ◌≡◌, refl, ◌∙◌, false, not, Option, none, some, List, [], ◌∷◌, arith, length,
  length-append, length-retain-le, retain, is_empty, unwrap_or, Bool-cases, Option-cases, inl, inr,
}
use rust_mcp_sdk.Prelude.Table.{lookup, lookup-insert, lookup-remove, insert, remove}
use rust_mcp_sdk.Prelude.Text.{Text, text_eq, text_beq_iff}
use rust_mcp_sdk.Events.{
  EventEntry, EventStore, new, in_stream, push_event, store_event, remove_stream_in_session,
  remove_by_session_id, clear,
}

-- What a client of the store may call under the write lock.
pub data Op : Type 0 where
  store : Text → Text → ℕ → Text → Op
  remove_stream : Text → Text → Op
  remove_session : Text → Op
  clear_all : Op

unfoldable pub apply : EventStore → Op → EventStore
apply s (store session_id stream_id time_stamp message) =
    (store_event s session_id stream_id time_stamp message).0
apply s (remove_stream session_id stream_id) = remove_stream_in_session s session_id stream_id
apply s (remove_session session_id) = remove_by_session_id s session_id
apply s clear_all = clear s

unfoldable pub run : EventStore → List Op → EventStore
unfolding apply
run s [] = s
run s (o ∷ ops) = run (apply s o) ops

-- A queue that is stored is not empty and not over the limit.
abbrev pub IsBoundedQueue : ℕ → List EventEntry → Type 0
IsBoundedQueue limit queue = (1 ≤ length queue) × (length queue ≤ limit)

record IsBounded (s : EventStore) : Type 0 where
  pub at_session :
      (session_id : Text) (queue : List EventEntry)
      → lookup session_id s.storage_map ≡ some queue
      → IsBoundedQueue s.max_events_per_session queue
  pub has_room : 0 < s.max_events_per_session

pub length-push_event :
    (limit : ℕ) (e : EventEntry) (queue : List EventEntry)
    → 0 < limit
    → length queue ≤ limit
    → IsBoundedQueue limit (push_event limit e queue)
unfolding push_event
length-push_event limit e [] h b = ground (arith, length-append {0} [] (e ∷ []))
length-push_event limit e (d ∷ queue) h b =
    ground (arith, length-append {0} (d ∷ queue) (e ∷ []), length-append {0} queue (e ∷ []))

insert-IsBounded :
    (s : EventStore) (k : Text) (queue : List EventEntry)
    → IsBounded s
    → IsBoundedQueue s.max_events_per_session queue
    → IsBounded (record s { storage_map = insert k queue s.storage_map })
insert-IsBounded s k queue h b = record {
  at_session = λ j q found. ground (arith, lookup-insert k j queue s.storage_map, h.at_session j q);
  has_room = h.has_room;
}

remove-IsBounded :
    (s : EventStore) (k : Text)
    → IsBounded s
    → IsBounded (record s { storage_map = remove k s.storage_map })
remove-IsBounded s k h = record {
  at_session = λ j q found. ground (arith, lookup-remove k j s.storage_map, h.at_session j q);
  has_room = h.has_room;
}

store-IsBounded :
    (s : EventStore) (session_id stream_id : Text) (time_stamp : ℕ) (message : Text)
    → IsBounded s
    → IsBounded (store_event s session_id stream_id time_stamp message).0
unfolding store_event
store-IsBounded s session_id stream_id time_stamp message h = insert-IsBounded s session_id _ h (
    length-push_event s.max_events_per_session _ _ h.has_room
      (room (lookup session_id s.storage_map) refl))
  where
    room :
        (found : Option (List EventEntry))
        → lookup session_id s.storage_map ≡ found
        → length (unwrap_or found []) ≤ s.max_events_per_session
    room none e = omega arith
    room (some q) e = (h.at_session session_id q e).1

not_empty_length : (q : List EventEntry) → is_empty q ≡ false → 1 ≤ length q
not_empty_length [] h = cc
not_empty_length (e ∷ q) h = omega arith

kept-IsBoundedQueue :
    (s : EventStore) (session_id stream_id : Text) (q : List EventEntry)
    → IsBounded s
    → lookup session_id s.storage_map ≡ some q
    → is_empty (retain (λ e. not (in_stream stream_id e)) q) ≡ false
    → IsBoundedQueue s.max_events_per_session (retain (λ e. not (in_stream stream_id e)) q)
kept-IsBoundedQueue s session_id stream_id q h found kept = (
  not_empty_length _ kept,
  omega (
    arith,
    length-retain-le (λ e. not (in_stream stream_id e)) q,
    (h.at_session session_id q found).1,
  ),
)

remove_stream-IsBounded :
    (s : EventStore) (session_id stream_id : Text)
    → IsBounded s
    → IsBounded (remove_stream_in_session s session_id stream_id)
unfolding remove_stream_in_session
remove_stream-IsBounded s session_id stream_id h =
    elim (Option-cases (lookup session_id s.storage_map)) [
      | inl e ↦ rw (e, remove_stream_in_session) h
      | inr (q, e) ↦
          rw (e, remove_stream_in_session)
            (elim (Bool-cases (is_empty (retain (λ e. not (in_stream stream_id e)) q))) [
              | inl gone ↦ rw gone (remove-IsBounded s session_id h)
              | inr kept ↦ rw kept (
                  insert-IsBounded s session_id _ h
                    (kept-IsBoundedQueue s session_id stream_id q h e kept))
            ])
    ]

clear-IsBounded : (s : EventStore) → IsBounded s → IsBounded (clear s)
unfolding clear lookup
clear-IsBounded s h = record { at_session = λ j q found. cc; has_room = h.has_room }

-- Every operation keeps each stored queue between one event and the limit.
apply-IsBounded : (s : EventStore) (o : Op) → IsBounded s → IsBounded (apply s o)
unfolding apply remove_by_session_id
apply-IsBounded s (store k t n m) h = store-IsBounded s k t n m h
apply-IsBounded s (remove_stream k t) h = remove_stream-IsBounded s k t h
apply-IsBounded s (remove_session k) h = remove-IsBounded s k h
apply-IsBounded s clear_all h = clear-IsBounded s h

run_from-IsBounded : (s : EventStore) (ops : List Op) → IsBounded s → IsBounded (run s ops)
unfolding run
run_from-IsBounded s [] h = h
run_from-IsBounded s (o ∷ ops) h = run_from-IsBounded (apply s o) ops (apply-IsBounded s o h)

new-IsBounded : (max_events : Option ℕ) → 0 < unwrap_or max_events 64 → IsBounded (new max_events)
unfolding new lookup
new-IsBounded max_events h = record { at_session = λ j q found. cc; has_room = h }

-- No operation changes the limit.
limit-apply :
    (s : EventStore) (o : Op) → (apply s o).max_events_per_session ≡ s.max_events_per_session
unfolding apply store_event remove_stream_in_session remove_by_session_id clear
limit-apply s (store k t n m) = refl
limit-apply s (remove_stream k t) = ground arith
limit-apply s (remove_session k) = refl
limit-apply s clear_all = refl

limit-run :
    (s : EventStore) (ops : List Op) → (run s ops).max_events_per_session ≡ s.max_events_per_session
unfolding run
limit-run s [] = refl
limit-run s (o ∷ ops) = limit-run (apply s o) ops ∙ limit-apply s o

limit-new :
    (max_events : Option ℕ) → (new max_events).max_events_per_session ≡ unwrap_or max_events 64
unfolding new
limit-new max_events = refl

-- Whatever is stored, removed and cleared, a store made with a limit that is not 0 holds for each
-- session that it has between one event and that limit, which is 64 if none is given.
pub run-IsBoundedQueue :
    (max_events : Option ℕ) (ops : List Op) (session_id : Text) (queue : List EventEntry)
    → 0 < unwrap_or max_events 64
    → lookup session_id (run (new max_events) ops).storage_map ≡ some queue
    → IsBoundedQueue (unwrap_or max_events 64) queue
run-IsBoundedQueue max_events ops session_id queue h found =
    let limit = limit-run (new max_events) ops ∙ limit-new max_events in
    let bounded = run_from-IsBounded (new max_events) ops (new-IsBounded max_events h) in
    subst (λ n. IsBoundedQueue n queue) limit (bounded.at_session session_id queue found)

-- The events of a list, stored one after the other in one session.
unfoldable pub store_all : EventStore → Text → List EventEntry → EventStore
store_all s k [] = s
store_all s k (e ∷ events) =
    store_all (store_event s k e.stream_id e.time_stamp e.message).0 k events

abbrev pub queue_of : EventStore → Text → List EventEntry
queue_of s k = unwrap_or (lookup k s.storage_map) []

pub queue_of-store_event :
    (s : EventStore) (k t : Text) (n : ℕ) (m : Text)
    → queue_of (store_event s k t n m).0 k
      ≡ push_event s.max_events_per_session
          (record { stream_id = t; time_stamp = n; message = m })
          (queue_of s k)
unfolding store_event
queue_of-store_event s k t n m = ground (
  arith,
  lookup-insert k k
      (push_event s.max_events_per_session (record { stream_id = t; time_stamp = n; message = m })
        (queue_of s k))
      s.storage_map,
  text_beq_iff k k,
)

length-push_event_zero :
    (e : EventEntry) (queue : List EventEntry) → length (push_event 0 e queue) ≡ length queue + 1
unfolding push_event
length-push_event_zero e [] = refl
length-push_event_zero e (d ∷ queue) = ground (arith, length-append {0} (d ∷ queue) (e ∷ []))

store_event_zero :
    (s : EventStore) (k t : Text) (n : ℕ) (m : Text)
    → s.max_events_per_session ≡ 0
    → length (queue_of (store_event s k t n m).0 k) ≡ length (queue_of s k) + 1
store_event_zero s k t n m h =
    rw (queue_of-store_event s k t n m) (rw h (length-push_event_zero _ _))

pub limit-store_event :
    (s : EventStore) (k t : Text) (n : ℕ) (m : Text)
    → (store_event s k t n m).0.max_events_per_session ≡ s.max_events_per_session
unfolding store_event
limit-store_event s k t n m = refl

-- With the limit 0 no event is ever dropped: a session's queue grows by every event stored.
length-store_all_zero :
    (s : EventStore) (k : Text) (events : List EventEntry)
    → s.max_events_per_session ≡ 0
    → length (queue_of (store_all s k events) k) ≡ length (queue_of s k) + length events
unfolding store_all
length-store_all_zero s k [] h = omega arith
length-store_all_zero s k (e ∷ events) h = omega (
  arith,
  store_event_zero s k e.stream_id e.time_stamp e.message h,
  length-store_all_zero (store_event s k e.stream_id e.time_stamp e.message).0 k events
      (limit-store_event s k e.stream_id e.time_stamp e.message ∙ h),
)
