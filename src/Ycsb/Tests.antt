-- ===== src/Ycsb/Tests.antt =====
-- Small YCSB transactions, and the theorems at those inputs.
use doradd_storage.Base.{
  ℕ, ◌+◌, ◌*◌, ◌<◌, ◌≡◌, refl, [], ◌∷◌, none, some, false, arith, range_from, replicate,
  if◌then◌else◌, ◌==◌,
}
use doradd_storage.Dispatch.{
  FileDispatcher, check_avail_cnts, dispatch_batch, rewind, run_batch, run,
}
use doradd_storage.Dispatch.Schedule.{IsReady}
use doradd_storage.Runtime.{Schedule, run_all}
use doradd_storage.Ycsb.{
  World, Rows, Behaviour, YcsbTransactionMarshalled, marshalled_size, cown_stride, body,
  ycsb_transaction,
}
use doradd_storage.Ycsb.Table.{Index, new, get_row, insert_row}
use doradd_storage.Ycsb.Setup.{insert_rows, insert_rows-all}
use doradd_storage.Ycsb.Body.{Disjoint, body-frame, body-commute}
use doradd_storage.Ycsb.Result.{meant, body-result}
use doradd_storage.Ycsb.Determinism.{behaviours, view, ycsb_deterministic}

-- Reads the row at 1024 and writes the one at 2048.
abbrev copier : Behaviour
copier = record { cowns = 1024 ∷ 2048 ∷ []; ws_cap = 2 }

abbrev other : Behaviour
other = record { cowns = 3072 ∷ 4096 ∷ []; ws_cap = 1 }

abbrev two_bytes : Rows
two_bytes a = 200 ∷ 100 ∷ []

-- 200 + 100 in eight bits is 44.
copier_test : body copier two_bytes 2048 ≡ replicate 100 44
unfolding body
copier_test = refl

frame_test : body copier two_bytes 1024 ≡ 200 ∷ 100 ∷ []
frame_test = body-frame copier two_bytes 1024 refl

body-commute_example : body other (body copier two_bytes) ≡ body copier (body other two_bytes)
body-commute_example = body-commute copier other two_bytes (refl, (refl, tt))

body-result_example : body copier two_bytes 2048 ≡ meant two_bytes (1024 ∷ 2048 ∷ []) 2 0 2048
body-result_example = body-result copier two_bytes 2048 (refl, (refl, tt))

three_rows :
    (x : Index) × (insert_rows 3 4096 3 0 (new 3) ≡ some x)
    × ((key : ℕ) → key < 3 → get_row x key ≡ 4096 + cown_stride * key)
    × ((r : ℕ) → insert_row 3 r x ≡ none)
three_rows = insert_rows-all 3 4096

insert_rows_test :
    insert_rows 2 4096 2 0 (new 2) ≡ some (record { map = 4096 ∷ 5120 ∷ []; cnt = 2 })
unfolding insert_rows new insert_row
insert_rows_test = refl

abbrev four_rows : Index
four_rows = record { map = 1024 ∷ 2048 ∷ 3072 ∷ 4096 ∷ []; cnt = 4 }

-- The entry at address 4 uses rows 0 and 1, all others rows 2 and 3.
abbrev small_log : ℕ → YcsbTransactionMarshalled
small_log a =
    if a == 4
    then record { indices = 0 ∷ 1 ∷ []; write_set = 2; cown_ptrs = 0 ∷ 0 ∷ [] }
    else record { indices = 2 ∷ 3 ∷ []; write_set = 1; cown_ptrs = 0 ∷ 0 ∷ [] }

abbrev small_world : World
small_world = record { index = four_rows; log = small_log; spawned = [] }

abbrev stamp : ℕ → ℕ
stamp l = l

abbrev dispatcher : FileDispatcher
dispatcher = record {
  idx = 0;
  count = 5;
  look_ahead = 0;
  read_top = 4;
  read_head = 4;
  prepare_parse_read_head = 4;
  prepare_proc_read_head = 4;
  tx_count = 0;
  tx_spawn_sum = 0;
  handled_req_cnt = 0;
  txn_log_id = 0;
  worker_cnt = 2;
  counter_registered = false;
  tx_exec_sum = 0;
  last_tx_exec_sum = 0;
}

dispatcher-IsReady : IsReady marshalled_size dispatcher
dispatcher-IsReady = omega arith

-- The second transaction runs first: it shares no row with the first one.
swapped : Schedule Disjoint body (copier ∷ other ∷ []) (other ∷ copier ∷ [])
swapped =
    Schedule.run (copier ∷ []) other [] (copier ∷ []) (copier ∷ other ∷ []) ((refl, (refl, tt)), tt)
      refl (Schedule.run [] copier [] [] (copier ∷ []) tt refl Schedule.done)

ycsb_deterministic_example :
    run_all Disjoint body (other ∷ copier ∷ []) two_bytes
    ≡ run_all Disjoint body (behaviours (view small_world) 4 (range_from 0 2)) two_bytes
unfolding run dispatch_batch check_avail_cnts rewind run_batch ycsb_transaction get_row
ycsb_deterministic_example =
    ycsb_deterministic stamp ([] ∷ []) dispatcher small_world (0 ∷ 2 ∷ []) 2 (other ∷ copier ∷ [])
      two_bytes dispatcher-IsReady refl refl (omega arith) swapped
