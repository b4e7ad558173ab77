-- ===== src/Sessions/Eviction.antt =====
-- `evict_idle` and `is_full` (in_memory_session_store.rs).
use rust_mcp_sdk.Prelude.{
  ℕ, suc, ◌+◌, ◌-◌, ◌≤◌, ◌<◌, ◌≡◌, refl, ap, ◌∙◌, Bool, not, Option, none, some, List, [], ◌∷◌,
  arith, length, length-retain-le, retain, All, leb, ltb, Bool-cases, inl, inr,
}
use rust_mcp_sdk.Prelude.Table.{IsDistinct, retain-IsDistinct}
use rust_mcp_sdk.Prelude.Text.{Text, text_eq}
use rust_mcp_sdk.Sessions.{
  SessionEntry, Shard, SessionStore, usize_mod, with_limits, is_idle, fetch_sub, evict_shards,
  evict_with, total_of, clear, is_full, get, set, delete,
}
use rust_mcp_sdk.Sessions.Counter.{
  IsCounted, with_limits-IsCounted, get-IsCounted, set-IsCounted, delete-IsCounted, clear-IsCounted,
}

module _ {R : Type 0} where
  abbrev pub fresh : ℕ → ℕ → Text × SessionEntry R → Bool
  fresh now ttl_ms (k, entry) = not (is_idle entry now ttl_ms)

  -- What the walk over the shards leaves: the shards, their number of sessions, the counter.
  record Evicted (now ttl_ms : ℕ) (l : List (Shard R)) (count : ℕ) : Type 0 where
    pub same_length : length (evict_shards now ttl_ms l count).0 ≡ length l
    pub distinct : All IsDistinct (evict_shards now ttl_ms l count).0
    pub total : (evict_shards now ttl_ms l count).1 ≡ total_of (evict_shards now ttl_ms l count).0
    pub fewer : total_of (evict_shards now ttl_ms l count).0 ≤ total_of l
    pub counted :
        (evict_shards now ttl_ms l count).2 + total_of l
        ≡ count + total_of (evict_shards now ttl_ms l count).0

  evict_shards-Evicted :
      (now ttl_ms : ℕ) (l : List (Shard R)) (count : ℕ)
      → All IsDistinct l
      → total_of l ≤ count
      → count < usize_mod
      → Evicted now ttl_ms l count
  unfolding evict_shards
  evict_shards-Evicted now ttl_ms [] count d h r = record {
    same_length = refl;
    distinct = tt;
    total = refl;
    fewer = omega arith;
    counted = refl;
  }
  evict_shards-Evicted now ttl_ms (s ∷ l) count d h r =
      let kept : Shard R = retain (fresh now ttl_ms) s in
      let le : length kept ≤ length s = length-retain-le (fresh now ttl_ms) s in
      let left : fetch_sub count (length s - length kept) + (length s - length kept) ≡ count =
        omega (arith, h, r, le) in
      let rest =
        evict_shards-Evicted now ttl_ms l (fetch_sub count (length s - length kept)) d.1
          (omega (arith, h, left, le)) (omega (arith, left, r)) in
      record {
        same_length = omega (arith, rest.same_length);
        distinct = (retain-IsDistinct (fresh now ttl_ms) s d.0, rest.distinct);
        total = omega (arith, rest.total);
        fewer = omega (arith, rest.fewer, le);
        counted = omega (arith, rest.counted, left, le);
      }

  module _ (s : SessionStore R) (now : ℕ) {high : ℕ} (h : IsCounted high s)
      (room : high < usize_mod) where
    evict_with-Evicted :
        (ttl : Option ℕ)
        → IsCounted high (evict_with s now ttl).0
          × ((evict_with s now ttl).1 ≡ total_of (evict_with s now ttl).0.shards)
          × (total_of (evict_with s now ttl).0.shards ≤ total_of s.shards)
          × ((evict_with s now ttl).0.max_sessions ≡ s.max_sessions)
    unfolding evict_with
    evict_with-Evicted none = (h, refl, omega arith, refl)
    evict_with-Evicted (some ttl_ms) =
        let e =
          evict_shards-Evicted now ttl_ms s.shards s.count h.distinct h.counted
            (omega (arith, h.low, room)) in
        (
          record {
            all_shards = e.same_length ∙ h.all_shards;
            distinct = e.distinct;
            counted = omega (arith, e.counted, h.counted, e.fewer);
            low = omega (arith, e.counted, e.fewer, h.low);
          },
          e.total,
          e.fewer,
          refl,
        )

    pub is_full-IsCounted : IsCounted high (is_full s now).0
    unfolding is_full
    is_full-IsCounted = elim (Bool-cases (ltb s.count s.max_sessions)) [
      | inl e ↦ rw e h
      | inr e ↦ rw e (evict_with-Evicted s.idle_ttl_ms).0
    ]

    -- Evicting adds no session, and leaves the limit.
    pub is_full-le :
        (total_of (is_full s now).0.shards ≤ total_of s.shards)
        × ((is_full s now).0.max_sessions ≡ s.max_sessions)
    unfolding is_full
    is_full-le = elim (Bool-cases (ltb s.count s.max_sessions)) [
      | inl e ↦ rw e (omega arith, refl)
      | inr e ↦ let evicted = evict_with-Evicted s.idle_ttl_ms in rw e (evicted.2, evicted.3)
    ]

    -- The answer of `is_full` is exact: it is true exactly if as many sessions as the limit are
    -- left behind the eviction that it makes.
    pub is_full-leb : (is_full s now).1 ≡ leb s.max_sessions (total_of (is_full s now).0.shards)
    unfolding is_full
    is_full-leb = elim (Bool-cases (ltb s.count s.max_sessions)) [
      | inl e ↦ rw e (ground (arith, h.counted))
      | inr e ↦ rw e (ap (leb s.max_sessions) (evict_with-Evicted s.idle_ttl_ms).1)
    ]

-- What a server does with its store; the numbers are the clock's readings.
pub data Op (R : Type 0) : Type 0 where
  get_session : Text → ℕ → Op R
  set_session : Text → R → ℕ → Op R
  delete_session : Text → Op R
  clear_all : Op R
  check_full : ℕ → Op R

module _ {R : Type 0} (hash : Text → ℕ) where
  unfoldable pub apply : SessionStore R → Op R → SessionStore R
  apply s (get_session k now) = (get hash s k now).0
  apply s (set_session k v now) = set hash s k v now
  apply s (delete_session k) = delete hash s k
  apply s clear_all = clear s
  apply s (check_full now) = (is_full s now).0

  unfoldable pub run : SessionStore R → List (Op R) → SessionStore R
  unfolding apply
  run s [] = s
  run s (o ∷ ops) = run (apply s o) ops

  pub raise-IsCounted : (s : SessionStore R) (high : ℕ) → IsCounted high s → IsCounted (high + 1) s
  raise-IsCounted s high h = record {
    all_shards = h.all_shards;
    distinct = h.distinct;
    counted = h.counted;
    low = omega (arith, h.low);
  }

  apply-IsCounted :
      (s : SessionStore R) (o : Op R) (high : ℕ)
      → IsCounted high s
      → high + 1 < usize_mod
      → IsCounted (high + 1) (apply s o)
  unfolding apply
  apply-IsCounted s (get_session k now) high h room =
      raise-IsCounted _ high (get-IsCounted hash k s h now)
  apply-IsCounted s (set_session k v now) high h room = set-IsCounted hash k s h v now room
  apply-IsCounted s (delete_session k) high h room =
      raise-IsCounted _ high (delete-IsCounted hash k s h (omega (arith, room)))
  apply-IsCounted s clear_all high h room = raise-IsCounted _ high (clear-IsCounted s h)
  apply-IsCounted s (check_full now) high h room =
      raise-IsCounted _ high (is_full-IsCounted s now h (omega (arith, room)))

  run_from-IsCounted :
      (s : SessionStore R) (ops : List (Op R)) (high : ℕ)
      → IsCounted high s
      → high + length ops < usize_mod
      → IsCounted (high + length ops) (run s ops)
  unfolding run
  run_from-IsCounted s [] high h room = let e : high + 0 ≡ high = omega arith in rw e h
  run_from-IsCounted s (o ∷ ops) high h room =
      let e : high + suc (length ops) ≡ high + 1 + length ops = omega arith in
      rw e (
        run_from-IsCounted (apply s o) ops (high + 1)
          (apply-IsCounted s o high h (omega (arith, room))) (omega (arith, room)))

  -- Fewer than 2^64 operations on a new store keep its counter from falling below the number of
  -- sessions, and keep the keys of each shard distinct.
  pub run-IsCounted :
      (max_sessions idle_ttl : Option ℕ) (ops : List (Op R))
      → length ops < usize_mod
      → IsCounted (length ops) (run (with_limits max_sessions idle_ttl) ops)
  run-IsCounted max_sessions idle_ttl ops room =
      let e : length ops ≡ 0 + length ops = omega arith in
      rw e (
        run_from-IsCounted (with_limits max_sessions idle_ttl) ops 0
          (with_limits-IsCounted max_sessions idle_ttl) (omega (arith, room)))

  -- After fewer than 2^64 operations on a new store, `is_full` is true exactly if as many sessions
  -- as the limit are left behind the eviction that it makes.
  pub run-is_full :
      (max_sessions idle_ttl : Option ℕ) (ops : List (Op R)) (now : ℕ)
      → length ops < usize_mod
      → let s = run (with_limits max_sessions idle_ttl) ops in
        (is_full s now).1 ≡ leb s.max_sessions (total_of (is_full s now).0.shards)
  run-is_full max_sessions idle_ttl ops now room =
      is_full-leb (run (with_limits max_sessions idle_ttl) ops) now
        (run-IsCounted max_sessions idle_ttl ops room) room
