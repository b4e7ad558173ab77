-- ===== src/Events/Resume.antt =====
-- Replay after a reconnection: `events_after` of in_memory_event_store.rs.
use native.Mathlib.Numerals.{add-one}
use rust_mcp_sdk.Prelude.{
  ℕ, ◌+◌, ◌^◌, ◌≤◌, ◌<◌, ◌≡◌, refl, ap, ◌∙◌, true, false, none, some, List, [], ◌∷◌, ◌++◌, map,
  append_assoc, append-nil, arith, length, length-append, All, retain, position, drop,
  drop-length-suc, Perm,
}
use rust_mcp_sdk.Prelude.Table.{lookup, lookup-insert}
use rust_mcp_sdk.Prelude.Text.{Text, text_eq, text_beq_iff}
use rust_mcp_sdk.Events.{
  EventEntry, EventStore, EventStoreEntry, ok, in_stream, is_event, push_event, store_event,
  generate_event_id, sort_by_time, messages_after, replay, events_after,
}
use rust_mcp_sdk.Events.Order.{
  IsSorted, sort_by_time-IsSorted, sort_by_time-perm, sort_by_time_sorted, retain-IsSorted,
}
use rust_mcp_sdk.Events.Ids.{IsIdText, parse_event_id-generate_event_id}
use rust_mcp_sdk.Events.Bounds.{store_all, queue_of, limit-store_event}

-- No event of the queue has this stream and time stamp.
abbrev pub IsFresh : Text → ℕ → List EventEntry → Type 0
IsFresh t n = All (λ d. is_event t n d ≡ false)

module _ (t : Text) (n : ℕ) (e : EventEntry) (found : is_event t n e ≡ true) where
  position-append :
      (pre post : List EventEntry)
      → IsFresh t n pre
      → position (is_event t n) (pre ++ e ∷ post) ≡ some (length pre)
  position-append [] post h = rw found
  position-append (d ∷ pre) post h = rw (h.0, position-append pre post h.1)

  -- What follows the first event with this stream and time stamp is replayed.
  messages_after-append :
      (pre post : List EventEntry)
      → IsFresh t n pre
      → messages_after t n (pre ++ e ∷ post)
        ≡ map (λ d. d.message) (sort_by_time (retain (in_stream t) post))
  unfolding messages_after
  messages_after-append pre [] h =
      rw (position-append pre [] h, messages_after)
        (unfold sort_by_time in ground (arith, length-append {0} pre (e ∷ [])))
  messages_after-append pre (d ∷ post) h =
      let behind : drop (length pre + 1) (pre ++ e ∷ d ∷ post) ≡ d ∷ post =
        rw add-one (drop-length-suc pre e (d ∷ post)) in
      rw (position-append pre (d ∷ post) h, messages_after)
        (rw behind (ground (arith, length-append {0} pre (e ∷ d ∷ post))))

-- An event that is not in the queue, since it was dropped or removed, is followed by nothing.
messages_after_missing :
    (t : Text) (n : ℕ) (queue : List EventEntry) → IsFresh t n queue → messages_after t n queue ≡ []
unfolding messages_after
messages_after_missing t n queue h = rw (position_fresh queue h, messages_after) refl
  where
    position_fresh : (q : List EventEntry) → IsFresh t n q → position (is_event t n) q ≡ none
    position_fresh [] h = refl
    position_fresh (d ∷ q) h = rw (h.0, position_fresh q h.1)

push_event_room :
    (limit : ℕ) (e : EventEntry) (queue : List EventEntry)
    → length queue < limit
    → push_event limit e queue ≡ queue ++ e ∷ []
unfolding push_event
push_event_room limit e queue h = ground arith

lookup-store_event :
    (s : EventStore) (k t : Text) (n : ℕ) (m : Text)
    → lookup k (store_event s k t n m).0.storage_map
      ≡ some (
          push_event s.max_events_per_session
            (record { stream_id = t; time_stamp = n; message = m })
            (queue_of s k))
unfolding store_event
lookup-store_event s k t n m = rw lookup-insert (ground (arith, text_beq_iff k k))

lookup-store_all :
    (s : EventStore) (k : Text) (queue events : List EventEntry)
    → lookup k s.storage_map ≡ some queue
    → length queue + length events ≤ s.max_events_per_session
    → lookup k (store_all s k events).storage_map ≡ some (queue ++ events)
unfolding store_all
lookup-store_all s k queue [] found room = rw append-nil found
lookup-store_all s k queue (e ∷ events) found room =
    let s' = (store_event s k e.stream_id e.time_stamp e.message).0 in
    let pushed : lookup k s'.storage_map ≡ some (queue ++ e ∷ []) =
      lookup-store_event s k e.stream_id e.time_stamp e.message
      ∙ ap some
          (rw found (push_event_room s.max_events_per_session e queue (omega (arith, room)))) in
    let limit : s'.max_events_per_session ≡ s.max_events_per_session =
      limit-store_event s k e.stream_id e.time_stamp e.message in
    lookup-store_all s' k (queue ++ e ∷ []) events pushed
      (omega (arith, room, limit, length-append {0} queue (e ∷ [])))
    ∙ ap some (append_assoc queue (e ∷ []) events)

abbrev entry : Text → Text → List Text → EventStoreEntry
entry k t messages = record { session_id = k; stream_id = t; messages = messages }

replay-queue :
    (s : EventStore) (k t : Text) (n : ℕ) (queue : List EventEntry)
    → lookup k s.storage_map ≡ some queue
    → replay s k t n ≡ some (entry k t (messages_after t n queue))
unfolding replay
replay-queue s k t n queue found = rw (found, replay)

events_after-replay :
    (s : EventStore) (k t : Text) (n : ℕ)
    → IsIdText k
    → IsIdText t
    → n < 2 ^ 128
    → events_after s (generate_event_id k t n) ≡ ok (replay s k t n)
unfolding events_after
events_after-replay s k t n hk ht hn = rw (parse_event_id-generate_event_id k t n hk ht hn)

-- The id of an event that is in its session's queue is answered by the messages of its stream
-- behind that event, in ascending order of their time stamps: where both ids are not empty and hold
-- no full stop and no NUL, the time stamp fits 128 bits, and no event in front of it in the queue has
-- the same stream and time stamp.
pub events_after-queue :
    (s : EventStore) (k t : Text) (n : ℕ) (e : EventEntry) (pre post : List EventEntry)
    → IsIdText k
    → IsIdText t
    → n < 2 ^ 128
    → lookup k s.storage_map ≡ some (pre ++ e ∷ post)
    → IsFresh t n pre
    → is_event t n e ≡ true
    → (l : List EventEntry) × (events_after s (generate_event_id k t n)
        ≡ ok (some (entry k t (map (λ d. d.message) l))))
      × IsSorted l
      × Perm l (retain (in_stream t) post)
events_after-queue s k t n e pre post hk ht hn found fresh h = (
  sort_by_time (retain (in_stream t) post),
  events_after-replay s k t n hk ht hn
      ∙ ap ok (
          replay-queue s k t n (pre ++ e ∷ post) found
          ∙ ap (λ l. some (entry k t l)) (messages_after-append t n e h pre post fresh)),
  sort_by_time-IsSorted _,
  sort_by_time-perm _,
)

store_event_id :
    (s : EventStore) (k t : Text) (n : ℕ) (m id : Text)
    → (store_event s k t n m).1 ≡ ok id
    → generate_event_id k t n ≡ id
unfolding store_event
store_event_id s k t n m id h = cc

is_event_self :
    (t : Text) (n : ℕ) (m : Text)
    → is_event t n (record { stream_id = t; time_stamp = n; message = m }) ≡ true
is_event_self t n m = ground (arith, text_beq_iff t t)

-- A client that was sent an event and reconnects with its id is sent exactly the messages of that
-- stream that were stored since, in the order in which they were stored: where the ids fit the
-- format, no older event has the same stream and time stamp, the later time stamps do not
-- decrease, and the queue has room for all of them.
pub events_after-store_all :
    (s : EventStore) (k t : Text) (n : ℕ) (m id : Text) (events : List EventEntry)
    → IsIdText k
    → IsIdText t
    → n < 2 ^ 128
    → IsFresh t n (queue_of s k)
    → IsSorted events
    → length (queue_of s k) + 1 + length events ≤ s.max_events_per_session
    → (store_event s k t n m).1 ≡ ok id
    → events_after (store_all (store_event s k t n m).0 k events) id
      ≡ ok (some (entry k t (map (λ d. d.message) (retain (in_stream t) events))))
events_after-store_all s k t n m id events hk ht hn fresh sorted room stored =
    let e : EventEntry = record { stream_id = t; time_stamp = n; message = m } in
    let s' = (store_event s k t n m).0 in
    let pushed : lookup k s'.storage_map ≡ some (queue_of s k ++ e ∷ []) =
      lookup-store_event s k t n m
      ∙ ap some (push_event_room s.max_events_per_session e (queue_of s k) (omega (arith, room))) in
    let found : lookup k (store_all s' k events).storage_map ≡ some (queue_of s k ++ e ∷ events) =
      lookup-store_all s' k (queue_of s k ++ e ∷ []) events pushed (
        omega (arith, room, limit-store_event s k t n m, length-append {0} (queue_of s k) (e ∷ [])))
      ∙ ap some (append_assoc (queue_of s k) (e ∷ []) events) in
    rw (← store_event_id s k t n m id stored) (
      events_after-replay (store_all s' k events) k t n hk ht hn
      ∙ ap ok (
          replay-queue (store_all s' k events) k t n (queue_of s k ++ e ∷ events) found
          ∙ ap (λ l. some (entry k t l))
              (messages_after-append t n e (is_event_self t n m) (queue_of s k) events fresh
                ∙ ap (map (λ d. d.message))
                    (sort_by_time_sorted _ (retain-IsSorted _ events sorted)))))
