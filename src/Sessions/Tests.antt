-- ===== src/Sessions/Tests.antt =====
-- The session store at concrete inputs, with numbers for runtimes and a plain hash.
use rust_mcp_sdk.Prelude.{
  ℕ, ◌+◌, ◌≡◌, refl, true, false, some, none, List, [], ◌∷◌, arith, length, leb,
}
use rust_mcp_sdk.Prelude.Table.{lookup, insert, remove, modify}
use rust_mcp_sdk.Prelude.Text.{Text, text_beq, codes}
use rust_mcp_sdk.Sessions.{
  SessionStore, total_of, with_limits, is_idle, evict_shards, get, set, delete, has, is_full,
}
use rust_mcp_sdk.Sessions.Counter.{IsCounted}
use rust_mcp_sdk.Sessions.Eviction.{
  Op, get_session, set_session, delete_session, check_full, run, run-IsCounted, run-is_full,
}
use rust_mcp_sdk.Sessions.Refinement.{run_map, get-run}

abbrev hash : Text → ℕ
hash [] = 0
hash (c ∷ s) = c + hash s

abbrev ops : List (Op ℕ)
ops =
    set_session (codes "a") 1 0
    ∷ set_session (codes "b") 2 500
    ∷ get_session (codes "b") 900
    ∷ check_full 1200
    ∷ delete_session (codes "b")
    ∷ []

abbrev store : SessionStore ℕ
store = run hash (with_limits (some 2) (some 1000)) ops

-- The check evicts the session that has been idle for 1200 ms.
store_contents : (has hash store (codes "a") ≡ false) × (store.count ≡ 0)
unfolding run has with_limits get set delete is_full is_idle evict_shards lookup insert remove
    modify text_beq
store_contents = (refl, refl)

run-IsCounted_example : IsCounted 5 store
run-IsCounted_example = run-IsCounted hash (some 2) (some 1000) ops (omega arith)

run-is_full_example :
    (is_full store 1300).1 ≡ leb store.max_sessions (total_of (is_full store 1300).0.shards)
run-is_full_example = run-is_full hash (some 2) (some 1000) ops 1300 (omega arith)

abbrev one : SessionStore ℕ
one = set hash (with_limits none none) (codes "a") 7 0

one_shards : length one.shards ≡ 16
unfolding set with_limits
one_shards = refl

one-has : has hash one (codes "a") ≡ true
unfolding has set with_limits insert lookup text_beq
one-has = refl

get-run_example :
    (get hash (run hash (with_limits (some 2) none) ops) (codes "a") 9).1
    ≡ run_map (λ k. none) ops (codes "a")
get-run_example = get-run hash (some 2) ops (codes "a") 9

run_map_example : run_map (λ k. none) ops (codes "a") ≡ some 1
unfolding run_map text_beq
run_map_example = refl
