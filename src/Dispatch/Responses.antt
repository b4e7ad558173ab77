-- ===== src/Dispatch/Responses.antt =====
-- A response reaches the request that it answers: pending_request_tx of
-- crates/rust-mcp-transport/src/sse.rs (and the other transports), and the handling of responses in
-- handle_message of crates/rust-mcp-sdk/src/mcp_runtimes/server_runtime.rs.
use rust_mcp_sdk.Prelude.{
  ℕ, ◌≡◌, ◌≢◌, refl, ap, ◌∙◌, Bool, true, false, any, Option, none, some, List, [], ◌∷◌, ◌++◌, Eq,
  All, arith, ◌==◌, if◌then◌else◌, Bool-cases, inl, inr, ==_iff,
}
use rust_mcp_sdk.Prelude.Table.{lookup, remove, lookup-remove, beq_refl}
use rust_mcp_sdk.Dispatch.{
  MessageDispatcher, WriteEnd, Messages, Sending, finished, waiting, store_pending_request,
  store_pending_request_for_message, server_send_single,
}
use rust_mcp_sdk.Dispatch.Held.{
  IsHeld, insert_own-IsHeld, remove-IsHeld, stored-IsHeld, pending-server_send_single,
}

-- The dispatcher of a connection, what has been sent on the channels of its requests, and the
-- channels whose receivers are gone.
pub record Connection (K R : Type 0) : Type 0 where
  pub dispatcher : MessageDispatcher K
  pub sent : List (ℕ × R)
  pub dropped : List ℕ

-- What happens on a connection: a message is sent at a time with a channel for its response, a
-- response comes in, or a request is given up (its time is over, or what awaits it is dropped).
pub data Step (K M R : Type 0) : Type 0 where
  sends : M → (channel now : ℕ) → WriteEnd → Step K M R
  responds : K → R → Step K M R
  gives_up : (channel : ℕ) → Step K M R

-- The result of `handle_message` for a response; the error is that the receiver is gone.
pub data Handled : Type 0 where
  handled internal_error : Handled

abbrev pub is_dropped : ℕ → List ℕ → Bool
is_dropped channel dropped = any (λ i. i == channel) dropped

-- An end of sending with which the receiver is dropped.
abbrev pub drop_finished : ℕ → Sending ℕ → List ℕ → List ℕ
drop_finished channel (finished error) dropped = channel ∷ dropped
drop_finished channel (waiting rx) dropped = dropped

kept_awaited :
    (channel j : ℕ) (dropped : List ℕ)
    → j ≢ channel
    → is_dropped channel dropped ≡ false
    → is_dropped channel (j ∷ dropped) ≡ false
kept_awaited channel j dropped other awaited = ground (arith, ==_iff j channel, other, awaited)

drop_finished-awaited :
    (channel j : ℕ) (sending : Sending ℕ) (dropped : List ℕ)
    → j ≢ channel
    → is_dropped channel dropped ≡ false
    → is_dropped channel (drop_finished j sending dropped) ≡ false
drop_finished-awaited channel j (finished error) dropped other awaited =
    kept_awaited channel j dropped other awaited
drop_finished-awaited channel j (waiting rx) dropped other awaited = awaited

module _ {R : Type 0} where
  -- `tx_response.send`, if there is one.
  abbrev pub send_on : List ℕ → Option ℕ → R → List (ℕ × R) → List (ℕ × R) × Handled
  send_on dropped none r sent = (sent, handled)
  send_on dropped (some channel) r sent =
      if is_dropped channel dropped
      then (sent, internal_error)
      else (sent ++ (channel, r) ∷ [], handled)

  -- What the receiver of a channel has been sent.
  abbrev pub received_on : ℕ → List (ℕ × R) → List R
  received_on channel [] = []
  received_on channel ((j, r) ∷ sent) =
      let rest = received_on channel sent in if j == channel then r ∷ rest else rest

  received_on-append :
      (channel j : ℕ) (r : R) (sent : List (ℕ × R))
      → j ≢ channel
      → received_on channel (sent ++ (j, r) ∷ []) ≡ received_on channel sent
  received_on-append channel j r [] other = elim (Bool-cases (j == channel)) [
    | inl e ↦ absurd (other ((==_iff j channel).0 e))
    | inr e ↦ rw e refl
  ]
  received_on-append channel j r ((i, x) ∷ sent) other =
      rw (received_on-append channel j r sent other) refl

  received_on-send_on :
      (channel : ℕ) (dropped : List ℕ) (tx : Option ℕ) (r : R) (sent : List (ℕ × R))
      → tx ≢ some channel
      → received_on channel (send_on dropped tx r sent).0 ≡ received_on channel sent
  received_on-send_on channel dropped none r sent other = refl
  received_on-send_on channel dropped (some j) r sent other =
      elim (Bool-cases (is_dropped j dropped)) [
        | inl e ↦ rw e refl
        | inr e ↦ rw e (received_on-append channel j r sent (λ q. other (ap some q)))
      ]

  received_on_own :
      (channel : ℕ) (r : R) (sent : List (ℕ × R))
      → received_on channel sent ≡ []
      → received_on channel (sent ++ (channel, r) ∷ []) ≡ r ∷ []
  received_on_own channel r [] silent = ground arith
  received_on_own channel r ((i, x) ∷ sent) silent =
      ground (arith, silent, received_on_own channel r sent)

module _ {K : Type 0} ⦃e : Eq K⦄ where
  -- `pending_request_tx`: the request is taken out of the table.
  unfoldable pub pending_request_tx : MessageDispatcher K → K → MessageDispatcher K × Option ℕ
  pending_request_tx d request_id = (
    record d { pending_requests = remove request_id d.pending_requests },
    lookup request_id d.pending_requests,
  )

  -- A response without a request is dropped, and one whose receiver is gone is an error.
  unfoldable pub handle_response : {R : Type 0} → Connection K R → K → R → Connection K R × Handled
  handle_response c request_id r =
      let taken = pending_request_tx c.dispatcher request_id in
      let result = send_on c.dropped taken.1 r c.sent in
      (record c { dispatcher = taken.0; sent = result.0 }, result.1)

module _ {K M R : Type 0} ⦃e : Eq K⦄ (messages : Messages K M) where
  unfoldable pub step : Connection K R → Step K M R → Connection K R
  step c (sends message channel now answer) =
      let sending = server_send_single messages c.dispatcher message channel now answer in
      record c { dispatcher = sending.0; dropped = drop_finished channel sending.1 c.dropped }
  step c (responds request_id r) = (handle_response c request_id r).0
  step c (gives_up channel) = record c { dropped = channel ∷ c.dropped }

  unfoldable pub run_steps : Connection K R → List (Step K M R) → Connection K R
  unfolding step
  run_steps c [] = c
  run_steps c (s ∷ steps) = run_steps (step c s) steps

  -- Not about the request, and not on its channel.
  abbrev pub IsApart : K → ℕ → Step K M R → Type 0
  IsApart k channel (sends message j now answer) =
      (messages.request_id message ≢ some k) × (j ≢ channel)
  IsApart k channel (responds j r) = j ≢ k
  IsApart k channel (gives_up j) = j ≢ channel

  -- The request waits, and nothing has been sent on its channel.
  record IsWaiting (k : K) (channel : ℕ) (c : Connection K R) : Type 0 where
    pub held : IsHeld k channel c.dispatcher.pending_requests
    pub silent : received_on channel c.sent ≡ []
    pub awaited : is_dropped channel c.dropped ≡ false

  step-IsWaiting :
      (k : K) (channel : ℕ) (c : Connection K R) (s : Step K M R)
      → IsApart k channel s
      → IsWaiting k channel c
      → IsWaiting k channel (step c s)
  unfolding step handle_response pending_request_tx
  step-IsWaiting k channel c (sends message j now answer) apart h = record {
    held =
        rw (pending-server_send_single messages c.dispatcher message j now answer)
          (stored-IsHeld messages k channel c.dispatcher message j apart.0 apart.1 h.held);
    silent = h.silent;
    awaited = drop_finished-awaited channel j _ c.dropped apart.1 h.awaited;
  }
  step-IsWaiting k channel c (responds j r) apart h = record {
    held = remove-IsHeld k channel j c.dispatcher.pending_requests apart h.held;
    silent =
        received_on-send_on channel c.dropped (lookup j c.dispatcher.pending_requests) r c.sent
          (λ found. apart (h.held.alone j found))
        ∙ h.silent;
    awaited = h.awaited;
  }
  step-IsWaiting k channel c (gives_up j) apart h = record {
    held = h.held;
    silent = h.silent;
    awaited = kept_awaited channel j c.dropped apart h.awaited;
  }

  run_steps-IsWaiting :
      (k : K) (channel : ℕ) (c : Connection K R) (steps : List (Step K M R))
      → All (IsApart k channel) steps
      → IsWaiting k channel c
      → IsWaiting k channel (run_steps c steps)
  unfolding run_steps
  run_steps-IsWaiting k channel c [] apart h = h
  run_steps-IsWaiting k channel c (s ∷ steps) apart h =
      run_steps-IsWaiting k channel (step c s) steps apart.1
        (step-IsWaiting k channel c s apart.0 h)

  -- A request that the server has written, and that is not given up, is answered: the response
  -- with its id is delivered to it once and without an error, and it is no longer pending, whatever
  -- other requests are sent, answered, fail or are given up in between, and whatever other responses
  -- come in. Its channel is new, and the other requests in between have other ids and other channels.
  pub handle_response-server_send_single :
      (c : Connection K R) (message : M) (k : K) (channel now : ℕ) (answer : WriteEnd)
      (steps : List (Step K M R)) (r : R)
      → messages.is_request message ≡ true
      → messages.request_id message ≡ some k
      → (server_send_single messages c.dispatcher message channel now answer).1 ≡ waiting channel
      → ((j : K) → lookup j c.dispatcher.pending_requests ≢ some channel)
      → received_on channel c.sent ≡ []
      → is_dropped channel c.dropped ≡ false
      → All (IsApart k channel) steps
      → let later = run_steps (step c (sends message channel now answer)) steps in
        ((handle_response later k r).1 ≡ handled)
        × (received_on channel (handle_response later k r).0.sent ≡ r ∷ [])
        × (lookup k (handle_response later k r).0.dispatcher.pending_requests ≡ none)
  unfolding step handle_response pending_request_tx store_pending_request_for_message
      store_pending_request
  handle_response-server_send_single c message k channel now answer steps r request id awaits fresh
        silent awaited apart =
      let begun : IsWaiting k channel (step c (sends message channel now answer)) = record {
        held =
            rw (pending-server_send_single messages c.dispatcher message channel now answer) (
              rw request (rw id (insert_own-IsHeld k channel c.dispatcher.pending_requests fresh)));
        silent = silent;
        awaited = rw awaits awaited;
      } in
      let later = run_steps (step c (sends message channel now answer)) steps in
      let waits =
        run_steps-IsWaiting k channel (step c (sends message channel now answer)) steps apart
          begun in
      rw waits.held.there (
        rw waits.awaited (
          refl,
          received_on_own channel r later.sent waits.silent,
          lookup-remove k k later.dispatcher.pending_requests ∙ rw (beq_refl k) refl,
        ))
