-- ===== src/Counters/Tests.antt =====
-- The theorem on the counters at a concrete run, and the registered counters after it.
use mathlib.Core.Quot
use doradd_storage.Base.{◌+◌, ◌^◌, ◌≤◌, ◌<◌, ◌≡◌, refl, ap, sym, ◌∙◌, List, [], ◌∷◌, All, arith}
use doradd_storage.Dispatch.{calc_tx_exec_sum}
use doradd_storage.Counters.{
  Event, executed, new_order, exited, registered, instance_of, update, incr, log_latency, destroy,
  step, steps, counter_map,
}
use doradd_storage.Counters.Update.{IsSampled}
use doradd_storage.Counters.Sum.{executions, exits, Logs}
use doradd_storage.Counters.Unordered.{here, Unordered, calc_tx_exec_sum-unordered}

-- Two worker threads.
abbrev some_events : List Event
some_events = executed 1 40 ∷ executed 2 55 ∷ executed 1 38 ∷ executed 2 61 ∷ executed 1 44 ∷ []

two_counters : counter_map (steps some_events []) ≡ 2 ∷ 3 ∷ []
unfolding steps step registered instance_of update incr log_latency
two_counters = refl

one_counter : counter_map (steps (exited 1 ∷ []) (steps some_events [])) ≡ 2 ∷ []
unfolding steps step registered instance_of update incr log_latency destroy
one_counter = refl

-- New orders on one thread: the first one is not logged, the tenth one is.
abbrev ten_orders : List Event
ten_orders =
    new_order 1 40
    ∷ new_order 1 41
    ∷ new_order 1 42
    ∷ new_order 1 43
    ∷ new_order 1 44
    ∷ new_order 1 45
    ∷ new_order 1 46
    ∷ new_order 1 47
    ∷ new_order 1 48
    ∷ new_order 1 49
    ∷ []

tenth_logged : steps ten_orders [] ≡ record { thread = 1; tx_cnt = 10; log_arr = 49 ∷ [] } ∷ []
unfolding steps step registered instance_of update incr log_latency
tenth_logged = refl

some_events-few : executions some_events + 1 < 2 ^ 64
unfolding executions
some_events-few = omega arith

-- The loop meets the second thread first.
swapped_counters :
    ◌≡◌ {A = Unordered} (Quot.mk (3 ∷ 2 ∷ [])) (Quot.mk (counter_map (steps some_events [])))
swapped_counters = Quot.sound (here 3 2 []) ∙ ap Quot.mk (sym two_counters)

calc_tx_exec_sum-unordered_example :
    (calc_tx_exec_sum (3 ∷ 2 ∷ []) 0 ≤ executions some_events)
    × (exits some_events ≡ 0 → calc_tx_exec_sum (3 ∷ 2 ∷ []) 0 ≡ executions some_events)
    × (All (Logs 9) some_events → All (IsSampled 9) (steps some_events []))
    × (All (Logs 0) some_events → All (IsSampled 0) (steps some_events []))
calc_tx_exec_sum-unordered_example =
    calc_tx_exec_sum-unordered some_events (3 ∷ 2 ∷ []) some_events-few swapped_counters
