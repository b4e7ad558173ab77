-- ===== src/Sessions/Refinement.antt =====
-- The session store as a map (in_memory_session_store.rs): without a time to live, what clients find
-- is what they would find in one map from keys to runtimes, whatever the shards and the hash are.
use rust_mcp_sdk.Prelude.{
  ℕ, zero, suc, ◌≡◌, refl, ap, ◌∙◌, Option, none, some, List, [], ◌∷◌, map, length, arith,
  if◌then◌else◌, Bool-cases, inl, inr, ltb,
}
use rust_mcp_sdk.Prelude.Table.{lookup, lookup-modify_own, modify, apply_to}
use rust_mcp_sdk.Prelude.Text.{Text, text_eq, text_beq, text_beq_iff}
use rust_mcp_sdk.Sessions.{
  Shard, SessionStore, shard_count, with_limits, evict_with, is_full, get_shard, empty_shards,
  shard_index, shard, touch, clear, get, set, delete,
}
use rust_mcp_sdk.Sessions.Shards.{length-set_shard}
use rust_mcp_sdk.Sessions.Contents.{lookup-with_shard, get-set, get-delete}
use rust_mcp_sdk.Sessions.Eviction.{
  Op, get_session, set_session, delete_session, clear_all, check_full, apply, run,
}

-- A map from keys to runtimes, and what an operation does to it.
abbrev pub SessionMap : Type 0 → Type 0
SessionMap R = Text → Option R

module _ {R : Type 0} where
  abbrev pub apply_map : SessionMap R → Op R → SessionMap R
  apply_map m (get_session k now) j = m j
  apply_map m (set_session k v now) j = if text_beq k j then some v else m j
  apply_map m (delete_session k) j = if text_beq k j then none else m j
  apply_map m clear_all j = none
  apply_map m (check_full now) j = m j

  unfoldable pub run_map : SessionMap R → List (Op R) → SessionMap R
  run_map m [] = m
  run_map m (o ∷ ops) = run_map (apply_map m o) ops

  length-map_empty :
      (l : List (Shard R)) → length (map (λ (s : Shard R). let t : Shard R = [] in t) l) ≡ length l
  length-map_empty [] = refl
  length-map_empty (s ∷ l) = ap suc (length-map_empty l)

  get_shard-map_empty :
      (l : List (Shard R)) (i : ℕ)
      → get_shard (map (λ (s : Shard R). let t : Shard R = [] in t) l) i ≡ []
  get_shard-map_empty [] i = refl
  get_shard-map_empty (s ∷ l) zero = refl
  get_shard-map_empty (s ∷ l) (suc i) = get_shard-map_empty l i

  get_shard-empty_shards : (n i : ℕ) → get_shard (empty_shards {R = R} n) i ≡ []
  get_shard-empty_shards zero i = refl
  get_shard-empty_shards (suc n) zero = refl
  get_shard-empty_shards (suc n) (suc i) = get_shard-empty_shards n i

  module _ (hash : Text → ℕ) where
    -- The store holds the map, and evicts nothing.
    record Holds (s : SessionStore R) (m : SessionMap R) : Type 0 where
      pub all_shards : length s.shards ≡ shard_count
      pub no_ttl : s.idle_ttl_ms ≡ none
      pub finds : (j : Text) (now : ℕ) → (get hash s j now).1 ≡ m j

    -- An access leaves what is found under every key.
    get-get_any :
        (s : SessionStore R) (k j : Text) (now later : ℕ)
        → length s.shards ≡ shard_count
        → (get hash (get hash s k now).0 j later).1 ≡ (get hash s j later).1
    unfolding get
    get-get_any s k j now later shards =
        rw
          (lookup-with_shard hash s k shards j (modify k (touch now) (shard hash s k))
            (apply_to (touch now) (lookup k (shard hash s k)))
            (λ i. lookup-modify_own k i (touch now) (shard hash s k)))
          (elim (Bool-cases (text_beq k j)) [
            | inl e ↦ rw e (rw ((text_beq_iff k j).0 e) (ground arith))
            | inr e ↦ rw e refl
          ])

    is_full_same : (s : SessionStore R) (now : ℕ) → s.idle_ttl_ms ≡ none → (is_full s now).0 ≡ s
    unfolding is_full evict_with
    is_full_same s now no_ttl = elim (Bool-cases (ltb s.count s.max_sessions)) [
      | inl e ↦ rw e refl
      | inr e ↦ rw e (rw no_ttl refl)
    ]

    apply-Holds :
        (s : SessionStore R) (m : SessionMap R) (o : Op R)
        → Holds s m
        → Holds (apply hash s o) (apply_map m o)
    unfolding apply get set delete clear is_full evict_with lookup
    apply-Holds s m (get_session k now) h = record {
      all_shards = length-set_shard s.shards (shard_index hash k) _ ∙ h.all_shards;
      no_ttl = h.no_ttl;
      finds = λ j later. get-get_any s k j now later h.all_shards ∙ h.finds j later;
    }
    apply-Holds s m (set_session k v now) h = record {
      all_shards = length-set_shard s.shards (shard_index hash k) _ ∙ h.all_shards;
      no_ttl = h.no_ttl;
      finds = λ j later. get-set hash s k h.all_shards j v now later ∙ rw (h.finds j later) refl;
    }
    apply-Holds s m (delete_session k) h = record {
      all_shards = length-set_shard s.shards (shard_index hash k) _ ∙ h.all_shards;
      no_ttl = h.no_ttl;
      finds = λ j later. get-delete hash s k h.all_shards j later ∙ rw (h.finds j later) refl;
    }
    apply-Holds s m clear_all h = record {
      all_shards = length-map_empty s.shards ∙ h.all_shards;
      no_ttl = h.no_ttl;
      finds = λ j later. rw (get_shard-map_empty s.shards (shard_index hash j)) refl;
    }
    apply-Holds s m (check_full now) h = rw (is_full_same s now h.no_ttl) h

    run-Holds :
        (s : SessionStore R) (m : SessionMap R) (ops : List (Op R))
        → Holds s m
        → Holds (run hash s ops) (run_map m ops)
    unfolding run run_map
    run-Holds s m [] h = h
    run-Holds s m (o ∷ ops) h = run-Holds (apply hash s o) (apply_map m o) ops (apply-Holds s m o h)

    with_limits-Holds :
        (max_sessions : Option ℕ) → Holds (with_limits max_sessions none) (λ j. none)
    unfolding with_limits get lookup
    with_limits-Holds max_sessions = record {
      all_shards = refl;
      no_ttl = refl;
      finds = λ j now. rw (get_shard-empty_shards 16 (shard_index hash j)) refl;
    }

    -- A new store without a time to live is a map: after any operations a client finds under each key
    -- what it would find in the map after the same operations.
    pub get-run :
        (max_sessions : Option ℕ) (ops : List (Op R)) (j : Text) (now : ℕ)
        → (get hash (run hash (with_limits max_sessions none) ops) j now).1
          ≡ run_map (λ k. none) ops j
    get-run max_sessions ops j now =
        (run-Holds (with_limits max_sessions none) (λ k. none) ops
            (with_limits-Holds max_sessions)).finds
          j now
