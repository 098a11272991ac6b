-- ===== src/Dispatch.antt =====
-- struct FileDispatcher of src/doradd/dispatcher.hpp, in the build with RPC_LATENCY and PREFETCH:
-- one thread that prepares, prefetches and dispatches batches of log entries.
--
-- The counter of received requests is read by relaxed loads, so a run takes the list of the values
-- that the loads return. The array of arrival times is a function of the slot. The counters of the
-- workers are a list, read anew in each round of `run`; the rates that it prints are left out.
pub mod Batch
pub mod Schedule
pub mod Replay
pub mod Order
pub mod Short
mod Tests
use doradd_storage.Base.{
  ℕ, zero, suc, ◌+◌, List, [], ◌∷◌, Option, none, some, Bool, false, true, ltb, leb, ◌==◌, length,
  if◌then◌else◌, sub64, add64, add32,
}
use doradd_storage.Config.{max_batch, rpc_log_size, announce_throughput_batch_size}
use doradd_storage.Txn.{TxnType, walk}

-- `avail_cnt` and its three cases; `none` is the `continue` that waits for a request.
unfoldable pub batch_of : ℕ → Option ℕ
batch_of avail_cnt =
    if leb max_batch avail_cnt
    then some max_batch
    else (if ltb 0 avail_cnt then some avail_cnt else none)

-- The do-while loop over the loaded values: the batch, and the loads not yet made. `none` when the
-- loads end while the loop still waits.
unfoldable pub check_avail_cnts : ℕ → List ℕ → Option (ℕ × List ℕ)
unfolding batch_of
check_avail_cnts handled [] = none
check_avail_cnts handled (load_val ∷ loads) = elim (batch_of (sub64 load_val handled)) [
  | some dyn_batch ↦ some (dyn_batch, loads)
  | none ↦ check_avail_cnts handled loads
]

pub record FileDispatcher : Type 0 where
  pub idx : ℕ
  pub count : ℕ
  pub look_ahead : ℕ
  pub read_top : ℕ
  pub read_head : ℕ
  pub prepare_parse_read_head : ℕ
  pub prepare_proc_read_head : ℕ
  pub tx_count : ℕ
  pub tx_spawn_sum : ℕ
  pub handled_req_cnt : ℕ
  pub txn_log_id : ℕ
  pub worker_cnt : ℕ
  pub counter_registered : Bool
  pub tx_exec_sum : ℕ
  pub last_tx_exec_sum : ℕ

-- The constructor: the entries begin behind the 32-bit count at the head of the mapped file.
-- `look_ahead` starts with whatever the memory held.
unfoldable pub new : ℕ → ℕ → ℕ → ℕ → FileDispatcher
new mmap_ret worker_cnt count garbage = record {
  idx = 0;
  count = count;
  look_ahead = garbage;
  read_top = mmap_ret + 4;
  read_head = mmap_ret + 4;
  prepare_parse_read_head = mmap_ret + 4;
  prepare_proc_read_head = mmap_ret + 4;
  tx_count = 0;
  tx_spawn_sum = 0;
  handled_req_cnt = 0;
  txn_log_id = 0;
  worker_cnt = worker_cnt;
  counter_registered = false;
  tx_exec_sum = 0;
  last_tx_exec_sum = 0;
}

-- `if (idx > (count - MAX_BATCH))`: `count` is widened to `size_t` before the subtraction.
unfoldable pub wraps : ℕ → ℕ → Bool
wraps idx count = ltb (sub64 count max_batch) idx

unfoldable pub rewind : FileDispatcher → FileDispatcher
unfolding wraps
rewind d =
    if wraps d.idx d.count
    then record d {
      idx = 0;
      read_head = d.read_top;
      prepare_parse_read_head = d.read_top;
      prepare_proc_read_head = d.read_top;
    }
    else d

pub track_worker_counter : List ℕ → FileDispatcher → FileDispatcher
track_worker_counter counter_map d =
    if length counter_map == d.worker_cnt then record d { counter_registered = true } else d

unfoldable pub calc_tx_exec_sum : List ℕ → ℕ → ℕ
calc_tx_exec_sum [] sum = sum
calc_tx_exec_sum (c ∷ counters) sum = calc_tx_exec_sum counters (add64 sum c)

-- The last part of the loop of `run`: the counts start over when the throughput is announced.
pub announce : List ℕ → FileDispatcher → FileDispatcher
unfolding calc_tx_exec_sum
announce counter_map d =
    let exec = if d.counter_registered then calc_tx_exec_sum counter_map 0 else d.tx_exec_sum in
    if leb announce_throughput_batch_size d.tx_count
    then record d { tx_exec_sum = exec; tx_count = 0; last_tx_exec_sum = exec }
    else d

-- The top of the loop of `run`.
pub begin_round : List ℕ → FileDispatcher → FileDispatcher
unfolding track_worker_counter
begin_round counter_map d = if d.counter_registered then d else track_worker_counter counter_map d

-- `tx_spawn_sum += look_ahead`, with the size of the batch before.
pub count_spawned : FileDispatcher → FileDispatcher
count_spawned d = record d { tx_spawn_sum = add64 d.tx_spawn_sum d.look_ahead }

module _ {W : Type 0} (t : TxnType W) (init_time_log_arr : ℕ → ℕ) where
  -- The arrival time is taken from the next slot.
  pub dispatch_one : FileDispatcher → W → FileDispatcher × W × ℕ
  dispatch_one d w =
      let init_time = init_time_log_arr d.txn_log_id in
      let d' = record d { txn_log_id = d.txn_log_id + 1 } in
      let (w', ret) = t.parse_and_process d.read_head init_time w in (d', w', ret)

  -- The last loop of `dispatch_batch`; the number is `ret`.
  pub dispatch_loop : ℕ → FileDispatcher → W → ℕ → FileDispatcher × W × ℕ
  unfolding dispatch_one
  dispatch_loop zero d w ret = (d, w, ret)
  dispatch_loop (suc n) d w ret =
      let (d', w', dispatch_ret) = dispatch_one d w in
      dispatch_loop n
        (record d' {
          read_head = d'.read_head + dispatch_ret;
          idx = add32 d'.idx 1;
          tx_count = add64 d'.tx_count 1;
        })
        w' (ret + dispatch_ret)

  -- What `dispatch_batch` does once the batch size is known.
  unfoldable pub run_batch : ℕ → FileDispatcher → W → FileDispatcher × W × ℕ
  unfolding dispatch_loop walk
  run_batch look_ahead d w =
      let (w1, proc_head) = walk t.prepare_cowns look_ahead d.prepare_proc_read_head w in
      let (w2, parse_head) = walk t.prefetch_cowns look_ahead d.prepare_parse_read_head w1 in
      let d1 = record d {
        look_ahead = look_ahead;
        prepare_proc_read_head = proc_head;
        prepare_parse_read_head = parse_head;
      } in
      let (d2, w3, ret) = dispatch_loop look_ahead d1 w2 0 in
      (record d2 { handled_req_cnt = add64 d2.handled_req_cnt look_ahead }, w3, ret)

  unfoldable pub dispatch_batch :
      FileDispatcher → W → List ℕ → Option (FileDispatcher × W × ℕ × List ℕ)
  dispatch_batch d w loads = elim (check_avail_cnts (rewind d).handled_req_cnt loads) [
    | none ↦ none
    | some (look_ahead, loads') ↦
        let (d', w', ret) = run_batch look_ahead (rewind d) w in some (d', w', ret, loads')
  ]

  -- The loop of `run`, one round for each snapshot of the counters. It breaks when the slots for
  -- arrival times are used up, and waits for ever when the loads end.
  unfoldable pub run : List (List ℕ) → FileDispatcher → W → List ℕ → FileDispatcher × W
  unfolding begin_round count_spawned announce
  run [] d w loads = (d, w)
  run (counters ∷ rounds) d w loads =
      let d1 = begin_round counters d in
      let round : FileDispatcher × W = elim (dispatch_batch (count_spawned d1) w loads) [
        | none ↦ (count_spawned d1, w)
        | some (d', w', ret, loads') ↦ run rounds (announce counters d') w' loads'
      ] in
      if leb rpc_log_size d1.txn_log_id then (d1, w) else round
