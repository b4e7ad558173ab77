-- ===== src/Sessions/Contents.antt =====
-- What a client finds in the session store (in_memory_session_store.rs).
use rust_mcp_sdk.Prelude.{
  ℕ, ◌+◌, ◌%◌, ◌<◌, ◌≡◌, ◌≢◌, refl, ap, true, false, Option, none, some, arith, length,
  if◌then◌else◌, ◌==◌, Bool-cases, inl, inr,
}
use rust_mcp_sdk.Prelude.Table.{
  lookup, lookup-insert, lookup-remove, lookup-modify, insert, modify, contains_key, length-insert,
  apply_to, beq_refl,
}
use rust_mcp_sdk.Prelude.Text.{Text, text_eq, text_beq, text_beq_iff}
use rust_mcp_sdk.Sessions.{
  SessionEntry, Shard, SessionStore, shard_count, usize_mod, get_shard, total_of, shard_index,
  shard, with_shard, touch, runtime_of, get, set, delete, has,
}
use rust_mcp_sdk.Sessions.Shards.{get_shard-set_shard, total_of-set_shard}

ne_of_test : {a b : ℕ} → (a == b) ≡ false → a ≢ b
ne_of_test {a} {b} e p = ground arith

module _ {R : Type 0} (hash : Text → ℕ) (s : SessionStore R) (k : Text)
    (shards : length s.shards ≡ shard_count) where
  index-lt : shard_index hash k < length s.shards
  index-lt = omega (arith, shards)

  -- Another key may stand in the same shard; the same key does.
  shard-with_shard :
      (j : Text) (t : Shard R)
      → shard hash (with_shard hash s k t) j
        ≡ (if shard_index hash k == shard_index hash j then t else shard hash s j)
  shard-with_shard j t =
      get_shard-set_shard s.shards (shard_index hash k) (shard_index hash j) t index-lt

  -- A shard in which only the key changes.
  pub lookup-with_shard :
      (j : Text) (t : Shard R) (found : Option (SessionEntry R))
      → ((i : Text) → lookup i t ≡ (if text_beq k i then found else lookup i (shard hash s k)))
      → lookup j (shard hash (with_shard hash s k t) j)
        ≡ (if text_beq k j then found else lookup j (shard hash s j))
  lookup-with_shard j t found h =
      rw (shard-with_shard j t) (elim (Bool-cases (shard_index hash k == shard_index hash j)) [
        | inl e ↦ rw e (ground (arith, h j, ap (get_shard s.shards) (index_eq j e)))
        | inr e ↦ rw e (ground (arith, text_beq_iff k j, index_ne j e))
      ])
    where
      index_eq :
          (j : Text)
          → (shard_index hash k == shard_index hash j) ≡ true
          → shard_index hash k ≡ shard_index hash j
      index_eq j e = ground arith

      index_ne :
          (j : Text) → (shard_index hash k == shard_index hash j) ≡ false → text_beq k j ≡ false
      index_ne j e = elim (Bool-cases (text_beq k j)) [
        | inl same ↦ absurd (ne_of_test e (ap (shard_index hash) ((text_beq_iff k j).0 same)))
        | inr other ↦ other
      ]

  -- After a session is set, its key has the new runtime, and every other key what it had.
  pub get-set :
      (j : Text) (v : R) (now later : ℕ)
      → (get hash (set hash s k v now) j later).1
        ≡ (if text_beq k j then some v else (get hash s j later).1)
  unfolding get set
  get-set j v now later =
      rw
        (lookup-with_shard j _ (some (record { runtime = v; last_access_ms = now }))
          (λ i. lookup-insert k i _ (shard hash s k)))
        (ground arith)

  -- After a session is deleted, its key has none, and every other key what it had.
  pub get-delete :
      (j : Text) (later : ℕ)
      → (get hash (delete hash s k) j later).1
        ≡ (if text_beq k j then none else (get hash s j later).1)
  unfolding get delete
  get-delete j later =
      rw (lookup-with_shard j _ none (λ i. lookup-remove k i (shard hash s k))) (ground arith)

  -- An access leaves what is found.
  pub get-get : (now later : ℕ) → (get hash (get hash s k now).0 k later).1 ≡ (get hash s k now).1
  unfolding get
  get-get now later =
      let same : (shard_index hash k == shard_index hash k) ≡ true = ground arith in
      rw (shard-with_shard k (modify k (touch now) (shard hash s k)))
        (rw same (rw (lookup-modify k k (touch now) (shard hash s k)) (rw (beq_refl k) touched)))
    where
      touched :
          runtime_of hash (apply_to (touch now) (lookup k (shard hash s k)))
          ≡ runtime_of hash (lookup k (shard hash s k))
      touched = ground arith

  -- Setting a key that has a session counts one session more, although there is no more of them.
  pub set_again :
      (v : R) (now : ℕ)
      → has hash s k ≡ true
      → ((set hash s k v now).count ≡ (s.count + 1) % usize_mod)
        × (total_of (set hash s k v now).shards ≡ total_of s.shards)
  unfolding set has
  set_again v now there = (
    refl,
    omega (
      arith,
      total_of-set_shard s.shards (shard_index hash k)
          (insert k (record { runtime = v; last_access_ms = now }) (shard hash s k)) index-lt,
      same_length v now there,
    ),
  )
    where
      same_length :
          (v : R) (now : ℕ)
          → contains_key k (shard hash s k) ≡ true
          → length (insert k (record { runtime = v; last_access_ms = now }) (shard hash s k))
            ≡ length (shard hash s k)
      same_length v now there =
          ground
            (arith, length-insert k (record { runtime = v; last_access_ms = now }) (shard hash s k))
