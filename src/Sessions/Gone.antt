-- ===== src/Sessions/Gone.antt =====
-- A key that has no session (in_memory_session_store.rs), and what leaves it without one.
use rust_mcp_sdk.Prelude.{
  ℕ, zero, suc, ◌≡◌, ◌≢◌, refl, ap, ◌∙◌, Option, none, some, List, [], ◌∷◌, length, ltb,
  if◌then◌else◌, Bool-cases, inl, inr,
}
use rust_mcp_sdk.Prelude.Table.{
  lookup, lookup-insert, lookup-remove, lookup-modify_own, lookup-retain-none, insert, apply_to,
}
use rust_mcp_sdk.Prelude.Text.{Text, text_eq, text_beq, text_beq_iff}
use rust_mcp_sdk.Sessions.{
  SessionEntry, Shard, SessionStore, shard_count, evict_shards, evict_with, is_full, get_shard,
  shard_index, shard, with_shard, touch, runtime_of, get, set, delete,
}
use rust_mcp_sdk.Sessions.Shards.{length-set_shard}
use rust_mcp_sdk.Sessions.Contents.{lookup-with_shard}

module _ {R : Type 0} where
  length-evict_shards :
      (now ttl_ms : ℕ) (l : List (Shard R)) (count : ℕ)
      → length (evict_shards now ttl_ms l count).0 ≡ length l
  unfolding evict_shards
  length-evict_shards now ttl_ms [] count = refl
  length-evict_shards now ttl_ms (s ∷ l) count = ap suc (length-evict_shards now ttl_ms l _)

  lookup-evict_shards-none :
      (now ttl_ms : ℕ) (k : Text) (i : ℕ) (l : List (Shard R)) (count : ℕ)
      → lookup k (get_shard l i) ≡ none
      → lookup k (get_shard (evict_shards now ttl_ms l count).0 i) ≡ none
  unfolding evict_shards
  lookup-evict_shards-none now ttl_ms k i [] count h = h
  lookup-evict_shards-none now ttl_ms k zero (s ∷ l) count h = lookup-retain-none _ k s h
  lookup-evict_shards-none now ttl_ms k (suc i) (s ∷ l) count h =
      lookup-evict_shards-none now ttl_ms k i l _ h

  module _ (hash : Text → ℕ) (k : Text) where
    pub record IsGone (s : SessionStore R) : Type 0 where
      pub all_shards : length s.shards ≡ shard_count
      pub absent : lookup k (shard hash s k) ≡ none

    evict_with-IsGone :
        (s : SessionStore R) (now : ℕ) (ttl : Option ℕ) → IsGone s → IsGone (evict_with s now ttl).0
    unfolding evict_with
    evict_with-IsGone s now none h = h
    evict_with-IsGone s now (some ttl_ms) h = record {
      all_shards = length-evict_shards now ttl_ms s.shards s.count ∙ h.all_shards;
      absent = lookup-evict_shards-none now ttl_ms k (shard_index hash k) s.shards s.count h.absent;
    }

    pub is_full-IsGone : (s : SessionStore R) (now : ℕ) → IsGone s → IsGone (is_full s now).0
    unfolding is_full
    is_full-IsGone s now h = elim (Bool-cases (ltb s.count s.max_sessions)) [
      | inl e ↦ rw e h
      | inr e ↦ rw e (evict_with-IsGone s now s.idle_ttl_ms h)
    ]

    -- Only the key's own entry is written.
    write-IsGone :
        (s : SessionStore R) (j : Text) (t : Shard R) (found : Option (SessionEntry R))
        → ((i : Text) → lookup i t ≡ (if text_beq j i then found else lookup i (shard hash s j)))
        → (j ≡ k → found ≡ none)
        → IsGone s
        → IsGone (with_shard hash s j t)
    write-IsGone s j t found written same h = record {
      all_shards = length-set_shard s.shards (shard_index hash j) t ∙ h.all_shards;
      absent =
          lookup-with_shard hash s j h.all_shards k t found written
          ∙ (elim (Bool-cases (text_beq j k)) [
            | inl e ↦ rw e (same ((text_beq_iff j k).0 e))
            | inr e ↦ rw e h.absent
          ]);
    }

    pub get-IsGone :
        (s : SessionStore R) (j : Text) (now : ℕ) → IsGone s → IsGone (get hash s j now).0
    unfolding get
    get-IsGone s j now h =
        write-IsGone s j _ (apply_to (touch now) (lookup j (shard hash s j)))
          (λ i. lookup-modify_own j i (touch now) (shard hash s j)) (λ e. rw e (rw h.absent refl)) h

    pub set-IsGone :
        (s : SessionStore R) (j : Text) (v : R) (now : ℕ)
        → j ≢ k
        → IsGone s
        → IsGone (set hash s j v now)
    unfolding set
    set-IsGone s j v now ne h =
        let written =
          write-IsGone s j
            (insert j (record { runtime = v; last_access_ms = now }) (shard hash s j))
            (some (record { runtime = v; last_access_ms = now }))
            (λ i. lookup-insert j i _ (shard hash s j)) (λ e. absurd (ne e)) h in
        record { all_shards = written.all_shards; absent = written.absent }

    pub delete-IsGone : (s : SessionStore R) (j : Text) → IsGone s → IsGone (delete hash s j)
    unfolding delete
    delete-IsGone s j h =
        let written =
          write-IsGone s j _ none (λ i. lookup-remove j i (shard hash s j)) (λ e. refl) h in
        record { all_shards = written.all_shards; absent = written.absent }

    -- Deleting makes it so.
    pub delete_makes-IsGone :
        (s : SessionStore R) → length s.shards ≡ shard_count → IsGone (delete hash s k)
    unfolding delete
    delete_makes-IsGone s shards = record {
      all_shards = length-set_shard s.shards (shard_index hash k) _ ∙ shards;
      absent =
          lookup-with_shard hash s k shards k _ none (λ i. lookup-remove k i (shard hash s k))
          ∙ rw ((text_beq_iff k k).1 refl) refl;
    }

    -- Nothing is found then.
    pub get_absent : (s : SessionStore R) (now : ℕ) → IsGone s → (get hash s k now).1 ≡ none
    unfolding get
    get_absent s now h = rw h.absent refl

    runtime_of_absent :
        (found : Option (SessionEntry R)) → runtime_of hash found ≡ none → found ≡ none
    runtime_of_absent none h = refl
    runtime_of_absent (some entry) h = cc

    -- If nothing is found, it is so.
    pub unfound-IsGone :
        (s : SessionStore R) (now : ℕ)
        → length s.shards ≡ shard_count
        → (get hash s k now).1 ≡ none
        → IsGone s
    unfolding get
    unfound-IsGone s now shards h = record {
      all_shards = shards;
      absent = runtime_of_absent (lookup k (shard hash s k)) h;
    }

    pub length-get :
        (s : SessionStore R) (now : ℕ) → length (get hash s k now).0.shards ≡ length s.shards
    unfolding get
    length-get s now = length-set_shard s.shards (shard_index hash k) _
