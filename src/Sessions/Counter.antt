-- ===== src/Sessions/Counter.antt =====
-- The counter of sessions, and the limit (in_memory_session_store.rs).
use rust_mcp_sdk.Prelude.{
  ℕ, ◌+◌, ◌%◌, ◌≤◌, ◌<◌, ◌≡◌, refl, ◌∙◌, Option, List, [], ◌∷◌, map, arith, length, All,
}
use rust_mcp_sdk.Prelude.Table.{
  IsDistinct, insert, remove, modify, length-insert, length-remove, insert-IsDistinct,
  remove-IsDistinct, length-modify, modify-IsDistinct,
}
use rust_mcp_sdk.Prelude.Text.{Text, text_eq}
use rust_mcp_sdk.Sessions.{
  Shard, SessionStore, shard_count, usize_mod, with_limits, touch, total_of, clear, shard_index,
  shard, with_shard, get, set, delete,
}
use rust_mcp_sdk.Sessions.Shards.{
  length-set_shard, total_of-set_shard, All-set_shard, All-get_shard,
}

module _ {R : Type 0} where
  -- Sixteen shards with distinct keys, and a counter that is not below the number of sessions and
  -- not above `high`.
  pub record IsCounted (high : ℕ) (s : SessionStore R) : Type 0 where
    pub all_shards : length s.shards ≡ shard_count
    pub distinct : All IsDistinct s.shards
    pub counted : total_of s.shards ≤ s.count
    pub low : s.count ≤ high

  index-lt :
      (hash : Text → ℕ) (k : Text) (s : SessionStore R)
      → length s.shards ≡ shard_count
      → shard_index hash k < length s.shards
  index-lt hash k s h = omega (arith, h)

  pub with_limits-IsCounted :
      (max_sessions idle_ttl : Option ℕ) → IsCounted 0 (with_limits max_sessions idle_ttl)
  unfolding with_limits
  with_limits-IsCounted max_sessions idle_ttl = record {
    all_shards = refl;
    distinct = omega arith;
    counted = omega arith;
    low = omega arith;
  }

  module _ (hash : Text → ℕ) (k : Text) (s : SessionStore R) {high : ℕ} (h : IsCounted high s) where
    abbrev old : Shard R
    old = shard hash s k

    pub old-IsDistinct : IsDistinct old
    old-IsDistinct = All-get_shard IsDistinct s.shards (shard_index hash k) h.distinct tt

    pub total_with :
        (t : Shard R)
        → total_of (with_shard hash s k t).shards + length old ≡ total_of s.shards + length t
    total_with t =
        total_of-set_shard s.shards (shard_index hash k) t (index-lt hash k s h.all_shards)

    -- A shard is replaced, and the counter set to a number that counts it.
    replace-IsCounted :
        (t : Shard R) (count high' : ℕ)
        → IsDistinct t
        → total_of s.shards + length t ≤ count + length old
        → count ≤ high'
        → IsCounted high' (record (with_shard hash s k t) { count = count })
    replace-IsCounted t count high' distinct counted low = record {
      all_shards = length-set_shard s.shards (shard_index hash k) t ∙ h.all_shards;
      distinct = All-set_shard IsDistinct s.shards (shard_index hash k) t h.distinct distinct;
      counted = omega (arith, total_with t, counted);
      low = low;
    }

    pub get-IsCounted : (now : ℕ) → IsCounted high (get hash s k now).0
    unfolding get
    get-IsCounted now =
        replace-IsCounted (modify k (touch now) old) s.count high
          (modify-IsDistinct k (touch now) old old-IsDistinct)
          (omega (arith, length-modify k (touch now) old, h.counted)) h.low

    pub set-IsCounted :
        (v : R) (now : ℕ) → high + 1 < usize_mod → IsCounted (high + 1) (set hash s k v now)
    unfolding set
    set-IsCounted v now room =
        replace-IsCounted (insert k (record { runtime = v; last_access_ms = now }) old)
          ((s.count + 1) % usize_mod) (high + 1) (insert-IsDistinct k _ old old-IsDistinct)
          (ground (
            arith,
            length-insert k (record { runtime = v; last_access_ms = now }) old,
            h.counted,
            h.low,
            room,
          ))
          (ground (arith, h.low, room))

    pub delete-IsCounted : high < usize_mod → IsCounted high (delete hash s k)
    unfolding delete
    delete-IsCounted room =
        replace-IsCounted (remove k old) _ high (remove-IsDistinct k old old-IsDistinct)
          (ground (
            arith,
            length-remove k old old-IsDistinct,
            total_with (remove k old),
            h.counted,
            h.low,
          ))
          (ground (
            arith,
            length-remove k old old-IsDistinct,
            total_with (remove k old),
            h.counted,
            h.low,
          ))

  clear_shards :
      (l : List (Shard R))
      → (length (map (λ (s : Shard R). let t : Shard R = [] in t) l) ≡ length l)
        × All IsDistinct (map (λ (s : Shard R). let t : Shard R = [] in t) l)
        × (total_of (map (λ (s : Shard R). let t : Shard R = [] in t) l) ≡ 0)
  clear_shards [] = (refl, tt, refl)
  clear_shards (s ∷ l) =
      let (n, d, t) = clear_shards l in (omega (arith, n), (tt, d), omega (arith, t))

  pub clear-IsCounted :
      {high : ℕ} (s : SessionStore R) → IsCounted high s → IsCounted high (clear s)
  unfolding clear
  clear-IsCounted s h =
      let (n, d, t) = clear_shards s.shards in
      record {
        all_shards = n ∙ h.all_shards;
        distinct = d;
        counted = omega (arith, t);
        low = omega arith;
      }
