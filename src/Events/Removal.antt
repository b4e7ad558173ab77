-- ===== src/Events/Removal.antt =====
-- What the removals of in_memory_event_store.rs leave in the store.
use rust_mcp_sdk.Prelude.{
  ◌≡◌, refl, true, not, List, [], ◌∷◌, arith, retain, is_empty, if◌then◌else◌, Bool-cases,
  Option-cases, inl, inr,
}
use rust_mcp_sdk.Prelude.Table.{lookup, lookup-insert, lookup-remove}
use rust_mcp_sdk.Prelude.Text.{Text, text_eq, text_beq, text_beq_iff}
use rust_mcp_sdk.Events.{
  EventEntry, EventStore, in_stream, remove_stream_in_session, remove_by_session_id,
}
use rust_mcp_sdk.Events.Bounds.{queue_of}

is_empty-eq-nil : (l : List EventEntry) → is_empty l ≡ true → l ≡ []
is_empty-eq-nil [] h = refl
is_empty-eq-nil (e ∷ l) h = cc

-- Removing a stream leaves the other streams of its session in order, and all other sessions.
pub queue_of-remove_stream_in_session :
    (s : EventStore) (k t j : Text)
    → queue_of (remove_stream_in_session s k t) j
      ≡ (if text_beq k j then retain (λ e. not (in_stream t e)) (queue_of s k) else queue_of s j)
unfolding remove_stream_in_session
queue_of-remove_stream_in_session s k t j = elim (Option-cases (lookup k s.storage_map)) [
  | inl e ↦ rw (e, remove_stream_in_session) (ground (arith, e, text_beq_iff k j))
  | inr (q, e) ↦
      let kept = retain (λ d. not (in_stream t d)) q in
      rw (e, remove_stream_in_session)
        (elim (Bool-cases (is_empty kept)) [
          | inl gone ↦
              rw gone
                (rw lookup-remove (ground (arith, text_beq_iff k j, is_empty-eq-nil kept gone)))
          | inr some_left ↦ rw some_left (rw lookup-insert (ground (arith, text_beq_iff k j)))
        ])
]

-- Removing a session removes its events, and leaves all other sessions.
pub queue_of-remove_by_session_id :
    (s : EventStore) (k j : Text)
    → queue_of (remove_by_session_id s k) j ≡ (if text_beq k j then [] else queue_of s j)
unfolding remove_by_session_id
queue_of-remove_by_session_id s k j = rw lookup-remove (ground (arith, text_beq_iff k j))
