-- ===== src/Dispatch/Tests.antt =====
-- Runs of FileDispatcher on a small log, and the theorems at those inputs.
use doradd_storage.Base.{
  ℕ, ◌+◌, ◌≤◌, ◌≡◌, refl, List, [], ◌∷◌, ◌++◌, some, false, arith, range_from, replicate,
}
use doradd_storage.Config.{max_batch}
use doradd_storage.Txn.{TxnType, Sized}
use doradd_storage.Dispatch.{
  FileDispatcher, new, check_avail_cnts, wraps, rewind, run_batch, dispatch_batch, run,
}
use doradd_storage.Dispatch.Batch.{IsPlaced, IsValid, served, batch_world, dispatch_batch_lem}
use doradd_storage.Dispatch.Schedule.{schedule, IsReady}
use doradd_storage.Dispatch.Order.{schedule_in_order, schedule_full, schedule_cut}
use doradd_storage.Dispatch.Short.{dispatch_batch-short}
use doradd_storage.Dispatch.Replay.{Projects, execute, run_in_order}

-- Transactions of eight bytes that record where they are processed, and with which stamp.
abbrev tracer : TxnType (List (ℕ × ℕ))
tracer = record {
  prepare_cowns = λ a w. (w, 8);
  prefetch_cowns = λ a w. (w, 8);
  parse_and_process = λ a s w. (w ++ ((a, s) ∷ []), 8);
}

tracer-Sized : Sized tracer 8
tracer-Sized = record {
  prepare_size = λ a w. refl;
  prefetch_size = λ a w. refl;
  process_size = λ a s w. refl;
}

abbrev stamp : ℕ → ℕ
stamp l = l + 100

abbrev six_entries : FileDispatcher
six_entries = record {
  idx = 0;
  count = 6;
  look_ahead = 0;
  read_top = 4;
  read_head = 4;
  prepare_parse_read_head = 4;
  prepare_proc_read_head = 4;
  tx_count = 0;
  tx_spawn_sum = 0;
  handled_req_cnt = 0;
  txn_log_id = 0;
  worker_cnt = 2;
  counter_registered = false;
  tx_exec_sum = 0;
  last_tx_exec_sum = 0;
}

new-six_entries : new 0 2 6 0 ≡ six_entries
unfolding new
new-six_entries = refl

six_entries-IsValid : IsValid 8 six_entries
six_entries-IsValid = omega arith

six_entries-IsReady : IsReady 8 six_entries
six_entries-IsReady = omega arith

-- Two loads that show nothing new, then three requests.
check_avail_cnts_test : check_avail_cnts 0 (0 ∷ 0 ∷ 3 ∷ 9 ∷ []) ≡ some (3, 9 ∷ [])
unfolding check_avail_cnts
check_avail_cnts_test = refl

-- Three entries from the front; then the rest is too short for a full batch, so it starts over.
run_test :
    (run tracer stamp ([] ∷ (7 ∷ 5 ∷ []) ∷ []) six_entries [] (0 ∷ 3 ∷ 5 ∷ [])).1
    ≡ (4, 100) ∷ (12, 101) ∷ (20, 102) ∷ (4, 103) ∷ (12, 104) ∷ []
unfolding run dispatch_batch check_avail_cnts rewind run_batch
run_test = refl

dispatch_batch_lem_example :
    (dispatch_batch tracer stamp six_entries [] (0 ∷ 3 ∷ [])
      ≡ some (
        served six_entries 8 0 3,
        batch_world tracer stamp 8 tracer-Sized six_entries 0 3 [],
        24,
        [],
      ))
    × (3 ≤ 6)
    × IsValid 8 (served six_entries 8 0 3)
unfolding wraps check_avail_cnts
dispatch_batch_lem_example =
    dispatch_batch_lem tracer stamp 8 tracer-Sized six_entries [] (0 ∷ 3 ∷ []) six_entries-IsValid
      (omega arith) (omega arith) refl

abbrev some_rounds : List (List ℕ)
some_rounds = [] ∷ (7 ∷ 5 ∷ []) ∷ []

in_order_test : schedule 9 0 (3 ∷ 2 ∷ []) ≡ range_from 0 5
in_order_test = schedule_in_order 9 0 (3 ∷ 2 ∷ []) (omega arith) (omega arith) (omega arith)

eight_entries : schedule 8 0 (replicate 2 max_batch) ≡ range_from 0 8
eight_entries = schedule_full 2 8 0 (omega arith) (omega arith)

cut_test : (schedule 5 1 (2 ∷ []) ≡ 1 ∷ 2 ∷ []) × (schedule 5 1 (1 ∷ 1 ∷ []) ≡ 1 ∷ 0 ∷ [])
cut_test = schedule_cut 5 (omega arith) (omega arith)

abbrev recorded : ℕ → ℕ → List (ℕ × ℕ) → List (ℕ × ℕ)
recorded a s w = w ++ ((a, s) ∷ [])

tracer-Projects : Projects tracer (λ w. w) recorded
tracer-Projects = record {
  prepare_quiet = λ a w. refl;
  prefetch_quiet = λ a w. refl;
  process_exec = λ a s w. refl;
}

run_in_order_example :
    (run tracer stamp some_rounds six_entries [] (0 ∷ 2 ∷ 3 ∷ [])).1
    ≡ execute recorded stamp 4 8 (range_from 0 3) 0 []
unfolding run dispatch_batch check_avail_cnts rewind run_batch
run_in_order_example =
    run_in_order tracer (λ w. w) recorded tracer-Projects stamp 8 tracer-Sized some_rounds
      six_entries [] (0 ∷ 2 ∷ 3 ∷ []) 3 six_entries-IsReady refl (omega arith)

-- A log of three entries, where the dispatcher stands behind the fifth.
abbrev three_entries : FileDispatcher
three_entries = record six_entries {
  idx = 5;
  count = 3;
  read_head = 44;
  prepare_parse_read_head = 44;
  prepare_proc_read_head = 44;
}

dispatch_batch-short_example :
    (dispatch_batch tracer stamp three_entries [] (0 ∷ 2 ∷ [])
      ≡ some (
        served three_entries 8 5 2,
        batch_world tracer stamp 8 tracer-Sized three_entries 5 2 [],
        16,
        [],
      ))
    × IsPlaced 8 (served three_entries 8 5 2)
unfolding check_avail_cnts
dispatch_batch-short_example =
    dispatch_batch-short tracer stamp 8 tracer-Sized three_entries [] (0 ∷ 2 ∷ []) (omega arith)
      (omega arith) (omega arith) (omega arith) refl
