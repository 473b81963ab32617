-- ===== src/Tests/Recency.antt =====
-- `LRU` on a few calls: page 1 is used again, so that page 2 is the victim; the use of a victim is undefined.
use zone_buffer.Base.{count, remove, [], ◌∷◌, ok, fault, undefined}
use zone_buffer.Lru
use zone_buffer.Lru.{init}
use zone_buffer.Lru.Runs.{
  push_call, update_call, victim_call, run_lru, run_order, split_values, run_lru-run_order,
}

run_lru-run_order_example :
    Lru.Runs.Refines
      (run_lru (push_call 1 ∷ push_call 2 ∷ update_call 1 ∷ victim_call ∷ []) [] init)
      (ok (2 ∷ [], 1 ∷ []))
unfolding run_order split_values count remove
run_lru-run_order_example =
    run_lru-run_order (push_call 1 ∷ push_call 2 ∷ update_call 1 ∷ victim_call ∷ [])

victim_used_again :
    Lru.Runs.Refines
      (run_lru (push_call 1 ∷ push_call 2 ∷ victim_call ∷ update_call 1 ∷ []) [] init)
      (fault undefined)
unfolding run_order split_values count remove
victim_used_again = run_lru-run_order (push_call 1 ∷ push_call 2 ∷ victim_call ∷ update_call 1 ∷ [])
