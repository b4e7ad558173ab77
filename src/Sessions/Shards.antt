-- ===== src/Sessions/Shards.antt =====
-- One shard read and written among the others (in_memory_session_store.rs).
use rust_mcp_sdk.Prelude.{
  ℕ, zero, suc, ◌+◌, ◌<◌, ◌≡◌, refl, List, [], ◌∷◌, arith, length, All, if◌then◌else◌, ◌==◌,
}
use rust_mcp_sdk.Sessions.{Shard, get_shard, set_shard, total_of}

module _ {R : Type 0} where
  pub length-set_shard :
      (l : List (Shard R)) (i : ℕ) (t : Shard R) → length (set_shard l i t) ≡ length l
  length-set_shard [] i t = refl
  length-set_shard (s ∷ l) zero t = refl
  length-set_shard (s ∷ l) (suc i) t = omega (arith, length-set_shard l i t)

  pub get_shard-set_shard :
      (l : List (Shard R)) (i j : ℕ) (t : Shard R)
      → i < length l
      → get_shard (set_shard l i t) j ≡ (if i == j then t else get_shard l j)
  get_shard-set_shard [] i j t h = absurd (omega arith)
  get_shard-set_shard (s ∷ l) zero zero t h = refl
  get_shard-set_shard (s ∷ l) zero (suc j) t h = ground arith
  get_shard-set_shard (s ∷ l) (suc i) zero t h = ground arith
  get_shard-set_shard (s ∷ l) (suc i) (suc j) t h = ground (arith, get_shard-set_shard l i j t)

  -- Writing one shard changes the number of sessions by what it changes in that shard.
  pub total_of-set_shard :
      (l : List (Shard R)) (i : ℕ) (t : Shard R)
      → i < length l
      → total_of (set_shard l i t) + length (get_shard l i) ≡ total_of l + length t
  total_of-set_shard [] i t h = absurd (omega arith)
  total_of-set_shard (s ∷ l) zero t h = omega arith
  total_of-set_shard (s ∷ l) (suc i) t h = omega (arith, total_of-set_shard l i t (omega arith))

  pub All-set_shard :
      (P : Shard R → Type 0) (l : List (Shard R)) (i : ℕ) (t : Shard R)
      → All P l
      → P t
      → All P (set_shard l i t)
  All-set_shard P [] i t h p = tt
  All-set_shard P (s ∷ l) zero t h p = (p, h.1)
  All-set_shard P (s ∷ l) (suc i) t h p = (h.0, All-set_shard P l i t h.1 p)

  pub All-get_shard :
      (P : Shard R → Type 0) (l : List (Shard R)) (i : ℕ) → All P l → P [] → P (get_shard l i)
  All-get_shard P [] i h p = p
  All-get_shard P (s ∷ l) zero h p = h.0
  All-get_shard P (s ∷ l) (suc i) h p = All-get_shard P l i h.1 p
