-- ===== src/Versions/Agreement.antt =====
-- What client and server agree on (crates/rust-mcp-sdk/src/utils.rs).
use rust_mcp_sdk.Prelude.{
  ℕ, Bool, Option, ◌&&◌, ◌≡◌, Bool-cases, inl, inr, refl, ap, sym, true, false, [], ◌∷◌, ◌==◌, ltb,
  arith, if◌then◌else◌, none, some,
}
use rust_mcp_sdk.Prelude.Text.{Text, text_leb}
use rust_mcp_sdk.Versions.{
  Ordering, less, equal, greater, RpcError, McpSdkError, SdkResult, accepted, refused,
  incompatible_version, cmp, ensure_server_protocole_compatibility,
  enforce_compatible_protocol_version, Server, set_client_details, handle_initialize_request,
  handle_message, initialize_request,
}

-- What the order says of two texts.
abbrev IsOrder : Text → Text → Ordering → Type 0
IsOrder s t less = text_leb s t ≡ true
IsOrder s t equal = (text_leb s t ≡ true) × (s ≡ t)
IsOrder s t greater = text_leb s t ≡ false

equal_first :
    (a b : ℕ) (s t : Text)
    → (a == b) ≡ true
    → (o : Ordering) → IsOrder s t o
    → IsOrder (a ∷ s) (b ∷ t) o
unfolding text_leb
equal_first a b s t e less h = rw e h
equal_first a b s t e equal h = (rw e h.0, ground (arith, e, h.1))
equal_first a b s t e greater h = rw e h

cmp-IsOrder_step :
    (a b : ℕ) (s t : Text) (o : Ordering)
    → IsOrder s t o
    → IsOrder (a ∷ s) (b ∷ t) (if a == b then o else if ltb a b then less else greater)
unfolding text_leb
cmp-IsOrder_step a b s t o h = elim (Bool-cases (a == b)) [
  | inl e ↦ rw e (equal_first a b s t e o h)
  | inr e ↦ rw e (elim (Bool-cases (ltb a b)) [
    | inl l ↦ rw l (rw e (ground (arith, l)))
    | inr l ↦ rw l (rw e (ground (arith, e, l)))
  ])
]

cmp-IsOrder : (s t : Text) → IsOrder s t (cmp s t)
unfolding cmp text_leb
cmp-IsOrder [] [] = (refl, refl)
cmp-IsOrder [] (b ∷ t) = refl
cmp-IsOrder (a ∷ s) [] = refl
cmp-IsOrder (a ∷ s) (b ∷ t) = cmp-IsOrder_step a b s t (cmp s t) (cmp-IsOrder s t)

cmp_self : (s : Text) → cmp s s ≡ equal
unfolding cmp
cmp_self [] = refl
cmp_self (a ∷ s) = ground (arith, cmp_self s)

enforce_less :
    (client server : Text)
    → cmp client server ≡ less
    → enforce_compatible_protocol_version client server ≡ accepted (some client)
unfolding enforce_compatible_protocol_version
enforce_less client server e = rw (e, enforce_compatible_protocol_version) refl

enforce_equal :
    (client server : Text)
    → cmp client server ≡ equal
    → enforce_compatible_protocol_version client server ≡ accepted none
unfolding enforce_compatible_protocol_version
enforce_equal client server e = rw (e, enforce_compatible_protocol_version) refl

enforce_greater :
    (client server : Text)
    → cmp client server ≡ greater
    → enforce_compatible_protocol_version client server
      ≡ refused (incompatible_version client server)
unfolding enforce_compatible_protocol_version
enforce_greater client server e = rw (e, enforce_compatible_protocol_version) refl

ensure_equal :
    (client server : Text)
    → cmp client server ≡ equal
    → ensure_server_protocole_compatibility client server ≡ accepted tt
unfolding ensure_server_protocole_compatibility
ensure_equal client server e = rw (e, ensure_server_protocole_compatibility) refl

ensure_self : (client : Text) → ensure_server_protocole_compatibility client client ≡ accepted tt
ensure_self client = ensure_equal client client (cmp_self client)

module _ (display_rpc_error : RpcError → Text) where
  -- What client and server make of it, if there is no answer and no client before.
  abbrev Outcome : Text → Server → McpSdkError → SdkResult Text × Option Text
  Outcome client server no_answer =
      let handled = handle_message display_rpc_error server client in
      (initialize_request client handled.1 no_answer, handled.0.client_details)

  -- Both have the client's version, or neither has any.
  abbrev pub agreement : Text → Server → McpSdkError → SdkResult Text × Option Text
  agreement client server no_answer =
      if text_leb client server.protocol_version && server.has_receiver
      then (accepted client, some client)
      else (refused no_answer, none)

  outcome_step :
      (client version : Text) (receiver : Bool) (no_answer : McpSdkError) (o : Ordering)
      → IsOrder client version o
      → cmp client version ≡ o
      → let server : Server = record {
        protocol_version = version;
        client_details = none;
        has_receiver = receiver;
      } in
        Outcome client server no_answer ≡ agreement client server no_answer
  unfolding initialize_request handle_message handle_initialize_request set_client_details
  outcome_step client version true no_answer less h e =
      rw (enforce_less client version e) (rw (ensure_self client) (rw h refl))
  outcome_step client version false no_answer less h e =
      rw (enforce_less client version e) (rw h refl)
  outcome_step client version true no_answer equal h e =
      rw (enforce_equal client version e) (
        rw (ensure_equal client version e) (rw h.0 (ap (λ v. (accepted v, some client)) (sym h.1))))
  outcome_step client version false no_answer equal h e =
      rw (enforce_equal client version e) (rw h.0 refl)
  outcome_step client version receiver no_answer greater h e =
      rw (enforce_greater client version e) (rw h refl)

  -- A client and a server that is not initialized end with the client's version on both sides, which
  -- the client's own check never refuses, if that version does not come after the server's in the
  -- order of strings, and the server can store the client's details. Otherwise the server sends no
  -- answer and stays without a client: the client ends with the error of a request that is not
  -- answered.
  pub initialize_request-handle_message :
      (client version : Text) (receiver : Bool) (no_answer : McpSdkError)
      → let server : Server = record {
        protocol_version = version;
        client_details = none;
        has_receiver = receiver;
      } in
        let handled = handle_message display_rpc_error server client in
        (initialize_request client handled.1 no_answer, handled.0.client_details)
        ≡ agreement client server no_answer
  initialize_request-handle_message client version receiver no_answer =
      outcome_step client version receiver no_answer (cmp client version)
        (cmp-IsOrder client version) refl
