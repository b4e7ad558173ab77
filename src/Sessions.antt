-- ===== src/Sessions.antt =====
-- The in-memory session store: crates/rust-mcp-sdk/src/session_store/in_memory_session_store.rs.
-- A method returns the new store; the clock's reading is an argument. The operations are modelled
-- one at a time: what other tasks do between the steps of one operation is not.
pub mod Shards
pub mod Counter
pub mod Eviction
pub mod Contents
pub mod Gone
pub mod Refinement
pub mod Capacity
mod Tests
use rust_mcp_sdk.Prelude.{
  ℕ, zero, suc, ◌+◌, ◌-◌, ◌%◌, ◌^◌, Bool, true, false, not, Option, none, some, List, [], ◌∷◌, ◌++◌,
  map, length, retain, leb, ltb, if◌then◌else◌, is_some, unwrap_or,
}
use rust_mcp_sdk.Prelude.Table.{Table, lookup, insert, remove, modify, contains_key}
use rust_mcp_sdk.Prelude.Text.{Text, text_eq}

-- `DEFAULT_MAX_SESSIONS`
abbrev pub default_max_sessions : ℕ
default_max_sessions = 10000

-- `SHARD_COUNT`
abbrev pub shard_count : ℕ
shard_count = 16

abbrev pub usize_mod : ℕ
usize_mod = 2 ^ 64

-- `SessionEntry`, over the type of the server runtimes.
pub record SessionEntry (R : Type 0) : Type 0 where
  pub runtime : R
  pub last_access_ms : ℕ

abbrev pub Shard : Type 0 → Type 0
Shard R = Table Text (SessionEntry R)

pub record SessionStore (R : Type 0) : Type 0 where
  pub shards : List (Shard R)
  pub count : ℕ
  pub max_sessions : ℕ
  pub idle_ttl_ms : Option ℕ

-- `fetch_sub` on the counter wraps around.
abbrev pub fetch_sub : ℕ → ℕ → ℕ
fetch_sub count n = (count + usize_mod - n) % usize_mod

abbrev pub shard_index : (Text → ℕ) → Text → ℕ
shard_index hash key = hash key % shard_count

module _ {R : Type 0} where
  abbrev pub get_shard : List (Shard R) → ℕ → Shard R
  get_shard [] i = []
  get_shard (s ∷ l) zero = s
  get_shard (s ∷ l) (suc i) = get_shard l i

  abbrev pub set_shard : List (Shard R) → ℕ → Shard R → List (Shard R)
  set_shard [] i t = []
  set_shard (s ∷ l) zero t = t ∷ l
  set_shard (s ∷ l) (suc i) t = s ∷ set_shard l i t

  abbrev pub empty_shards : ℕ → List (Shard R)
  empty_shards zero = []
  empty_shards (suc n) = [] ∷ empty_shards n

  unfoldable pub with_limits : Option ℕ → Option ℕ → SessionStore R
  with_limits max_sessions idle_ttl = record {
    shards = empty_shards shard_count;
    count = 0;
    max_sessions = unwrap_or max_sessions default_max_sessions;
    idle_ttl_ms = idle_ttl;
  }

  -- `saturating_sub` is the subtraction of ℕ.
  unfoldable pub is_idle : SessionEntry R → ℕ → ℕ → Bool
  is_idle entry now_ms ttl_ms = ltb ttl_ms (now_ms - entry.last_access_ms)

  abbrev pub touch : ℕ → SessionEntry R → SessionEntry R
  touch now entry = record entry { last_access_ms = now }

  -- The shards of a store with a time to live, one after the other: those that are left, the
  -- sessions in them, and the counter.
  unfoldable pub evict_shards : ℕ → ℕ → List (Shard R) → ℕ → List (Shard R) × ℕ × ℕ
  evict_shards now ttl_ms [] count = ([], 0, count)
  evict_shards now ttl_ms (s ∷ l) count =
      let kept = retain (λ (k, entry). not (is_idle entry now ttl_ms)) s in
      let (rest, total, count') =
        evict_shards now ttl_ms l (fetch_sub count (length s - length kept)) in
      (kept ∷ rest, length kept + total, count')

  abbrev pub total_of : List (Shard R) → ℕ
  total_of [] = 0
  total_of (s ∷ l) = length s + total_of l

  -- `evict_idle`, by the time to live.
  pub evict_with : SessionStore R → ℕ → Option ℕ → SessionStore R × ℕ
  evict_with store now (some ttl_ms) =
      let (shards, total, count) = evict_shards now ttl_ms store.shards store.count in
      (record store { shards = shards; count = count }, total)
  evict_with store now none = (store, total_of store.shards)

  unfoldable pub evict_idle : SessionStore R → ℕ → SessionStore R × ℕ
  unfolding evict_with
  evict_idle store now = evict_with store now store.idle_ttl_ms

  unfoldable pub clear : SessionStore R → SessionStore R
  clear store = record store { shards = map (λ s. []) store.shards; count = 0 }

  abbrev keys_of : List (Shard R) → List Text
  keys_of [] = []
  keys_of (s ∷ l) = map (λ e. e.0) s ++ keys_of l

  unfoldable pub keys : SessionStore R → List Text
  keys store = keys_of store.shards

  abbrev values_of : List (Shard R) → List R
  values_of [] = []
  values_of (s ∷ l) = map (λ e. e.1.runtime) s ++ values_of l

  unfoldable pub values : SessionStore R → List R
  values store = values_of store.shards

  unfoldable pub is_full : SessionStore R → ℕ → SessionStore R × Bool
  unfolding evict_idle
  is_full store now =
      let evicted = evict_idle store now in
      if ltb store.count store.max_sessions
      then (store, false)
      else (evicted.0, leb store.max_sessions evicted.1)

  -- The standard library's `DefaultHasher`, whose algorithm is not specified, is a parameter.
  module _ (hash : Text → ℕ) where
    abbrev pub shard : SessionStore R → Text → Shard R
    shard store key = get_shard store.shards (shard_index hash key)

    abbrev pub with_shard : SessionStore R → Text → Shard R → SessionStore R
    with_shard store key t = record store {
      shards = set_shard store.shards (shard_index hash key) t;
    }

    abbrev pub runtime_of : Option (SessionEntry R) → Option R
    runtime_of none = none
    runtime_of (some entry) = some entry.runtime

    unfoldable pub get : SessionStore R → Text → ℕ → SessionStore R × Option R
    get store key now = (
      with_shard store key (modify key (touch now) (shard store key)),
      runtime_of (lookup key (shard store key)),
    )

    unfoldable pub set : SessionStore R → Text → R → ℕ → SessionStore R
    set store key value now =
        record (with_shard store key
          (insert key (record { runtime = value; last_access_ms = now }) (shard store key))) {
            count = (store.count + 1) % usize_mod;
          }

    unfoldable pub delete : SessionStore R → Text → SessionStore R
    delete store key = record (with_shard store key (remove key (shard store key))) {
      count = if contains_key key (shard store key) then fetch_sub store.count 1 else store.count;
    }

    unfoldable pub has : SessionStore R → Text → Bool
    has store key = contains_key key (shard store key)
