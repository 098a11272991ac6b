-- ===== src/Counters/Unordered.antt =====
-- `counter_map` of src/doradd/txcounter.hpp as what it is, an unordered map: a loop over it meets the
-- counters in an order that the program does not choose.
use mathlib.Core.Quot
use mathlib.Core.Quot.{Quot}
use native.Mathlib.Nat.{ℕ_set}
use doradd_storage.Base.{ℕ, ◌+◌, ◌≤◌, ◌<◌, ◌≡◌, ap, ◌∙◌, List, [], ◌∷◌, arith, add64, u64_mod, All}
use doradd_storage.Dispatch.{calc_tx_exec_sum}
use doradd_storage.Counters.{Event, steps, counter_map}
use doradd_storage.Counters.Update.{IsSampled}
use doradd_storage.Counters.Sum.{executions, exits, Logs, calc_tx_exec_sum-executions}

-- Two counters that stand side by side change places.
pub data Swapped : List ℕ → List ℕ → Type 0 where
  here : (x y : ℕ) (xs : List ℕ) → Swapped (x ∷ y ∷ xs) (y ∷ x ∷ xs)
  later : (x : ℕ) {xs ys : List ℕ} → Swapped xs ys → Swapped (x ∷ xs) (x ∷ ys)

-- The counters, without an order.
abbrev pub Unordered : Type 0
Unordered = Quot Swapped

add64-swap : (sum x y : ℕ) → add64 (add64 sum x) y ≡ add64 (add64 sum y) x
add64-swap sum x y = omega arith

calc_tx_exec_sum-Swapped :
    {xs ys : List ℕ} (sum : ℕ) → Swapped xs ys → calc_tx_exec_sum xs sum ≡ calc_tx_exec_sum ys sum
unfolding calc_tx_exec_sum
calc_tx_exec_sum-Swapped sum (here x y xs) = ap (calc_tx_exec_sum xs) (add64-swap sum x y)
calc_tx_exec_sum-Swapped sum (later x s) = calc_tx_exec_sum-Swapped (add64 sum x) s

-- The sum over the unordered map.
sum_of : Unordered → ℕ
sum_of = Quot.lift ℕ_set (λ cs. calc_tx_exec_sum cs 0) (λ xs ys s. calc_tx_exec_sum-Swapped 0 s)

-- Lists with the same counters have the same sum.
same_sum :
    (xs ys : List ℕ)
    → ◌≡◌ {A = Unordered} (Quot.mk xs) (Quot.mk ys)
    → calc_tx_exec_sum xs 0 ≡ calc_tx_exec_sum ys 0
unfolding sum_of
same_sum xs ys e = ap sum_of e

-- In whatever order the loop over the unordered map meets the counters: after fewer than 2^64 - 1
-- transactions, of either kind and on any threads, the dispatcher's sum is at most their number, and
-- exactly their number when no worker thread has ended. When all of them log and then count (M_LOG_LATENCY
-- of app/ycsb.cc, the payment of app/tpcc.cc), the latencies that a thread has logged are one for its first transaction and one for
-- each tenth after it; when all of them count and then log (NEWORDER_END of app/tpcc.cc), one for its tenth
-- transaction and one for each tenth after it.
pub calc_tx_exec_sum-unordered :
    (events : List Event) (seen : List ℕ)
    → executions events + 1 < u64_mod
    → ◌≡◌ {A = Unordered} (Quot.mk seen) (Quot.mk (counter_map (steps events [])))
    → (calc_tx_exec_sum seen 0 ≤ executions events)
      × (exits events ≡ 0 → calc_tx_exec_sum seen 0 ≡ executions events)
      × (All (Logs 9) events → All (IsSampled 9) (steps events []))
      × (All (Logs 0) events → All (IsSampled 0) (steps events []))
calc_tx_exec_sum-unordered events seen few same =
    let e = same_sum seen (counter_map (steps events [])) same in
    let (most, all, first, last) = calc_tx_exec_sum-executions events few in
    (omega (arith, e), λ none_ended. e ∙ all none_ended, first, last)
