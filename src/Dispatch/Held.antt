-- ===== src/Dispatch/Held.antt =====
-- The table of the requests that wait (message_dispatcher.rs): one request and its channel.
use rust_mcp_sdk.Prelude.{
  ℕ, ◌≡◌, ◌≢◌, refl, sym, ap, ◌∙◌, Bool, false, not, ◌&&◌, is_empty, Option, none, some, Eq, arith,
  Bool-cases, Option-cases, inl, inr,
}
use rust_mcp_sdk.Prelude.Table.{
  Table, lookup, insert, remove, lookup-insert, lookup-remove, beq_refl,
}
use rust_mcp_sdk.Prelude.Text.{Text, trim}
use rust_mcp_sdk.Events.{EventStore}
use rust_mcp_sdk.Dispatch.{
  MessageDispatcher, TransportError, Messages, Writer, writable_std, writable_tx, no_writer,
  write_to, WriteEnd, all_written, stopped, not_taken, store_payload, server_write_str,
  store_pending_request, store_pending_request_for_message, after_write, write_payload,
  server_send_single,
}

module _ {K : Type 0} ⦃e : Eq K⦄ (k : K) (channel : ℕ) where
  -- The request is pending on the channel, and no other is.
  pub record IsHeld (m : Table K ℕ) : Type 0 where
    pub there : lookup k m ≡ some channel
    pub alone : (j : K) → lookup j m ≡ some channel → j ≡ k

  pub insert_own-IsHeld :
      (m : Table K ℕ) → ((j : K) → lookup j m ≢ some channel) → IsHeld (insert k channel m)
  insert_own-IsHeld m fresh = record {
    there = lookup-insert k k channel m ∙ rw (beq_refl k) refl;
    alone = λ j found. elim (Bool-cases (e.beq k j)) [
      | inl q ↦ sym ((e.beq_iff k j).0 q)
      | inr q ↦ absurd (fresh j (ground (arith, lookup-insert k j channel m, q, found)))
    ];
  }

  pub insert-IsHeld :
      (i : K) (j : ℕ) (m : Table K ℕ) → i ≢ k → j ≢ channel → IsHeld m → IsHeld (insert i j m)
  insert-IsHeld i j m other apart h = record {
    there = lookup-insert i k j m ∙ (elim (Bool-cases (e.beq i k)) [
      | inl q ↦ absurd (other ((e.beq_iff i k).0 q))
      | inr q ↦ rw q h.there
    ]);
    alone = λ l found. elim (Bool-cases (e.beq i l)) [
      | inl q ↦ absurd (apart (ground (arith, lookup-insert i l j m, q, found)))
      | inr q ↦ h.alone l (ground (arith, lookup-insert i l j m, q, found))
    ];
  }

  pub remove-IsHeld : (i : K) (m : Table K ℕ) → i ≢ k → IsHeld m → IsHeld (remove i m)
  remove-IsHeld i m other h = record {
    there = lookup-remove i k m ∙ (elim (Bool-cases (e.beq i k)) [
      | inl q ↦ absurd (other ((e.beq_iff i k).0 q))
      | inr q ↦ rw q h.there
    ]);
    alone = λ l found. elim (Bool-cases (e.beq i l)) [
      | inl q ↦ ground (arith, lookup-remove i l m, q, found)
      | inr q ↦ h.alone l (ground (arith, lookup-remove i l m, q, found))
    ];
  }

module _ {K M : Type 0} ⦃e : Eq K⦄ (messages : Messages K M) where
  pending-write_to :
      (d : MessageDispatcher K) (w : Writer) (prefix payload : Text) (answer : WriteEnd)
      → (write_to d w prefix payload answer).0.pending_requests ≡ d.pending_requests
  pending-write_to d writable_std prefix payload all_written = refl
  pending-write_to d writable_std prefix payload (stopped n error) = refl
  pending-write_to d writable_std prefix payload (not_taken text) = refl
  pending-write_to d writable_tx prefix payload all_written = refl
  pending-write_to d writable_tx prefix payload (stopped n error) = refl
  pending-write_to d writable_tx prefix payload (not_taken text) = refl
  pending-write_to d no_writer prefix payload answer = refl

  pending-store_payload :
      (d : MessageDispatcher K) (session_id stream_id : Option Text) (store : Option EventStore)
      (now : ℕ) (payload : Text)
      → (store_payload d session_id stream_id store now payload).0.pending_requests
        ≡ d.pending_requests
  pending-store_payload d none stream_id store now payload = refl
  pending-store_payload d (some session_id) none store now payload = refl
  pending-store_payload d (some session_id) (some stream_id) none now payload = refl
  pending-store_payload d (some session_id) (some stream_id) (some store) now payload = refl

  pending-server_write_str :
      (d : MessageDispatcher K) (payload : Text) (skip_store : Bool) (now : ℕ) (answer : WriteEnd)
      → (server_write_str d payload skip_store now answer).0.pending_requests ≡ d.pending_requests
  unfolding server_write_str
  pending-server_write_str d payload skip_store now answer =
      elim (Bool-cases (not skip_store && not (is_empty (trim payload)))) [
        | inl q ↦ rw q (
            pending-write_to (store_payload d d.session_id d.stream_id d.event_store now payload).0
              d.writer _ payload answer
            ∙ pending-store_payload d d.session_id d.stream_id d.event_store now payload)
        | inr q ↦ rw q (pending-write_to d d.writer _ payload answer)
      ]

  pending-after_write :
      (rx : Option ℕ) (o : MessageDispatcher K × Option TransportError)
      → (after_write messages rx o).0.pending_requests ≡ o.0.pending_requests
  pending-after_write rx (d, some error) = refl
  pending-after_write none (d, none) = refl
  pending-after_write (some channel) (d, none) = refl

  -- Writing leaves the table as it is.
  pub pending-server_send_single :
      (d : MessageDispatcher K) (message : M) (channel now : ℕ) (answer : WriteEnd)
      → (server_send_single messages d message channel now answer).0.pending_requests
        ≡ (store_pending_request_for_message messages d message channel).0.pending_requests
  unfolding server_send_single
  pending-server_send_single d message channel now answer =
      written (store_pending_request_for_message messages d message channel)
        (messages.to_string message)
    where
      written :
          (p : MessageDispatcher K × Option ℕ) (payload : Option Text)
          → (write_payload messages p payload
              (λ d text. server_write_str d text false now answer)).0.pending_requests
            ≡ p.0.pending_requests
      written (d, rx) none = refl
      written (d, rx) (some payload) =
          pending-after_write rx (server_write_str d payload false now answer)
          ∙ pending-server_write_str d payload false now answer

  pub stored-IsHeld :
      (k : K) (channel : ℕ) (d : MessageDispatcher K) (message : M) (j : ℕ)
      → messages.request_id message ≢ some k
      → j ≢ channel
      → IsHeld k channel d.pending_requests
      → IsHeld k channel (store_pending_request_for_message messages d message j).0.pending_requests
  unfolding store_pending_request_for_message store_pending_request
  stored-IsHeld k channel d message j other apart h =
      elim (Bool-cases (messages.is_request message)) [
        | inr q ↦ rw q h
        | inl q ↦ elim (Option-cases (messages.request_id message)) [
          | inl n ↦ rw q (rw n h)
          | inr (i, n) ↦ rw q (
              rw n (
                insert-IsHeld k channel i j d.pending_requests (λ e. other (n ∙ ap some e)) apart
                  h))
        ]
      ]
