-- ===== src/Sessions/Capacity.antt =====
-- The number of sessions against the limit (in_memory_session_store.rs), for a server that asks
-- `is_full` before it sets a session.
use rust_mcp_sdk.Prelude.{ℕ, ◌+◌, ◌≤◌, ◌<◌, ◌≡◌, refl, ◌∙◌, false, arith, Option, unwrap_or}
use rust_mcp_sdk.Prelude.Table.{insert, remove, modify, length-insert, length-modify, length-remove}
use rust_mcp_sdk.Prelude.Text.{Text, text_eq}
use rust_mcp_sdk.Sessions.{
  SessionStore, usize_mod, default_max_sessions, with_limits, shard, touch, total_of, get, set,
  delete, is_full,
}
use rust_mcp_sdk.Sessions.Counter.{
  IsCounted, with_limits-IsCounted, get-IsCounted, set-IsCounted, delete-IsCounted, total_with,
  old-IsDistinct,
}
use rust_mcp_sdk.Sessions.Eviction.{is_full-IsCounted, is_full-leb, is_full-le, raise-IsCounted}

module _ {R : Type 0} (max : ℕ) where
  pub record IsWithin (high : ℕ) (s : SessionStore R) : Type 0 where
    pub counted : IsCounted high s
    pub limit : s.max_sessions ≡ max
    pub within : total_of s.shards ≤ max

  module _ (hash : Text → ℕ) where
    pub raise-IsWithin : (s : SessionStore R) (high : ℕ) → IsWithin high s → IsWithin (high + 1) s
    raise-IsWithin s high h = record {
      counted = raise-IsCounted hash s high h.counted;
      limit = h.limit;
      within = h.within;
    }

    module _ (s : SessionStore R) {high : ℕ} (h : IsWithin high s) where
      pub get-IsWithin : (k : Text) (now : ℕ) → IsWithin high (get hash s k now).0
      unfolding get
      get-IsWithin k now = record {
        counted = get-IsCounted hash k s h.counted now;
        limit = h.limit;
        within = omega (
          arith,
          total_with hash k s h.counted (modify k (touch now) (shard hash s k)),
          length-modify k (touch now) (shard hash s k),
          h.within,
        );
      }

      pub delete-IsWithin : (k : Text) → high < usize_mod → IsWithin high (delete hash s k)
      unfolding delete
      delete-IsWithin k room = record {
        counted = delete-IsCounted hash k s h.counted room;
        limit = h.limit;
        within = ground (
          arith,
          total_with hash k s h.counted (remove k (shard hash s k)),
          length-remove k (shard hash s k) (old-IsDistinct hash k s h.counted),
          h.within,
        );
      }

      pub is_full-IsWithin : (now : ℕ) → high < usize_mod → IsWithin high (is_full s now).0
      is_full-IsWithin now room =
          let le = is_full-le s now h.counted room in
          record {
            counted = is_full-IsCounted s now h.counted room;
            limit = le.1 ∙ h.limit;
            within = omega (arith, le.0, h.within);
          }

      -- A session is set after `is_full` has answered that there is room.
      pub set-IsWithin :
          (k : Text) (v : R) (now : ℕ)
          → high + 1 < usize_mod
          → (is_full s now).1 ≡ false
          → IsWithin (high + 1) (set hash (is_full s now).0 k v now)
      unfolding set
      set-IsWithin k v now room free =
          let checked = is_full-IsWithin now (omega (arith, room)) in
          let t = (is_full s now).0 in
          let answer = is_full-leb s now h.counted (omega (arith, room)) in
          record {
            counted = set-IsCounted hash k t checked.counted v now room;
            limit = checked.limit;
            within = ground (
              arith,
              answer,
              free,
              checked.limit,
              total_with hash k t checked.counted
                  (insert k (record { runtime = v; last_access_ms = now }) (shard hash t k)),
              length-insert k (record { runtime = v; last_access_ms = now }) (shard hash t k),
            );
          }

module _ {R : Type 0} where
  pub with_limits-IsWithin :
      (max_sessions idle_ttl : Option ℕ)
      → IsWithin {R = R}
          (unwrap_or max_sessions default_max_sessions)
          0
          (with_limits max_sessions idle_ttl)
  unfolding with_limits
  with_limits-IsWithin max_sessions idle_ttl = record {
    counted = with_limits-IsCounted max_sessions idle_ttl;
    limit = refl;
    within = omega arith;
  }
