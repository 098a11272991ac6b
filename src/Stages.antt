-- ===== src/Stages.antt =====
-- The three stages of the pipeline of src/doradd/dispatcher.hpp, in the build with CORE_PIPE, INDEXER
-- and RPC_LATENCY: Indexer, Prefetcher and Spawner. Each `run` loop is cut where it touches a ring, so
-- that the rounds of the three threads interleave at those points (Stages/Pipeline.antt).
--
-- The local variables of a `run` are fields of its stage. What a stage reads of the
-- counters of the worker threads is an argument.
pub mod Ring
pub mod Cursor
pub mod Pipeline
pub mod Fifo
pub mod Execution
pub mod Recording
pub mod Prepares
pub mod Desync
pub mod Refinement
pub mod Work
pub mod Progress
pub mod Joint
pub mod Drain
pub mod Taken
pub mod Arrivals
mod Example
mod JointTests
mod Tests
use doradd_storage.Base.{
  ℕ, zero, suc, ◌+◌, List, Option, none, some, Bool, true, length, ◌==◌, ltb, leb, if◌then◌else◌,
  sub32, sub64, add64, add32,
}
use doradd_storage.Config.{max_batch, rpc_log_size, announce_throughput_batch_size}
use doradd_storage.Txn.{TxnType, walk}
use doradd_storage.Dispatch.{check_avail_cnts, calc_tx_exec_sum}

pub record Indexer : Type 0 where
  pub read_count : ℕ
  pub read_top : ℕ
  pub handled_req_cnt : ℕ
  pub read_idx : ℕ
  pub read_head : ℕ
  pub batch : ℕ

-- What memory holds where the code initialises nothing: the local `batch` of the Indexer, and two fields
-- of the Spawner.
pub record Garbage : Type 0 where
  pub batch : ℕ
  pub counter_registered : Bool
  pub tx_exec_sum : ℕ

pub new_indexer : ℕ → ℕ → Garbage → Indexer
new_indexer mmap_ret read_count garbage = record {
  read_count = read_count;
  read_top = mmap_ret + 4;
  handled_req_cnt = 0;
  read_idx = 0;
  read_head = mmap_ret + 4;
  batch = garbage.batch;
}

-- `if (read_idx > (read_count - batch))`, in 32 bits, with the size of the batch before.
pub index_wraps : ℕ → ℕ → ℕ → Bool
index_wraps read_idx read_count batch = ltb (sub32 read_count batch) read_idx

pub index_rewind : Indexer → Indexer
unfolding index_wraps
index_rewind x =
    if index_wraps x.read_idx x.read_count x.batch
    then record x { read_head = x.read_top; read_idx = 0 }
    else x

-- `n` times `read_idx++`.
pub bump : ℕ → ℕ → ℕ
bump zero idx = idx
bump (suc n) idx = bump n (add32 idx 1)

pub record Prefetcher : Type 0 where
  pub read_count : ℕ
  pub read_top : ℕ
  pub idx : ℕ
  pub read_head : ℕ
  pub prepare_read_head : ℕ

pub new_prefetcher : ℕ → ℕ → Prefetcher
new_prefetcher mmap_ret read_count = record {
  read_count = read_count;
  read_top = mmap_ret + 4;
  idx = 0;
  read_head = mmap_ret + 4;
  prepare_read_head = mmap_ret + 4;
}

-- `if (idx > (read_count - MAX_BATCH))`, in 64 bits.
pub stage_wraps : ℕ → ℕ → Bool
stage_wraps idx read_count = ltb (sub64 read_count max_batch) idx

pub prefetch_rewind : Prefetcher → Prefetcher
unfolding stage_wraps
prefetch_rewind x =
    if stage_wraps x.idx x.read_count
    then record x { read_head = x.read_top; prepare_read_head = x.read_top; idx = 0 }
    else x

pub record Spawner : Type 0 where
  pub read_count : ℕ
  pub read_top : ℕ
  pub idx : ℕ
  pub read_head : ℕ
  pub prepare_read_head : ℕ
  pub txn_log_id : ℕ
  pub tx_count : ℕ
  pub tx_spawn_sum : ℕ
  pub worker_cnt : ℕ
  pub counter_registered : Bool
  pub tx_exec_sum : ℕ
  pub last_tx_exec_sum : ℕ

pub new_spawner : ℕ → ℕ → ℕ → Garbage → Spawner
new_spawner mmap_ret read_count worker_cnt garbage = record {
  read_count = read_count;
  read_top = mmap_ret + 4;
  idx = 0;
  read_head = mmap_ret + 4;
  prepare_read_head = mmap_ret + 4;
  txn_log_id = 0;
  tx_count = 0;
  tx_spawn_sum = 0;
  worker_cnt = worker_cnt;
  counter_registered = garbage.counter_registered;
  tx_exec_sum = garbage.tx_exec_sum;
  last_tx_exec_sum = 0;
}

pub spawn_rewind : Spawner → Spawner
unfolding stage_wraps
spawn_rewind x =
    if stage_wraps x.idx x.read_count
    then record x { read_head = x.read_top; prepare_read_head = x.read_top; idx = 0 }
    else x

-- `if (txn_log_id > RPC_LOG_SIZE) break;`
pub spawn_stops : Spawner → Bool
spawn_stops x = ltb rpc_log_size x.txn_log_id

-- `if (!counter_registered) track_worker_counter();`
pub spawn_register : List ℕ → Spawner → Spawner
spawn_register counter_map x =
    if x.counter_registered
    then x
    else if length counter_map == x.worker_cnt
    then record x { counter_registered = true }
    else x

-- The end of a round, when enough transactions are counted for the throughput to be announced.
pub spawn_announce : List ℕ → Spawner → Spawner
unfolding calc_tx_exec_sum
spawn_announce counter_map x =
    let exec = if x.counter_registered then calc_tx_exec_sum counter_map 0 else x.tx_exec_sum in
    if leb announce_throughput_batch_size x.tx_count
    then record x { tx_exec_sum = exec; tx_count = 0; last_tx_exec_sum = exec }
    else x

module _ {W : Type 0} (t : TxnType W) where
  -- A round of `Indexer::run` up to the push; the field `batch` is what is pushed. `none` while no
  -- request is there.
  pub index_batch : Indexer → W → List ℕ → Option (Indexer × W × List ℕ)
  index_batch x w loads =
      let x1 = index_rewind x in
      elim (check_avail_cnts x1.handled_req_cnt loads) [
        | none ↦ none
        | some (dyn_batch, loads') ↦
            let (w', head) = walk t.prepare_cowns dyn_batch x1.read_head w in
            some (
              record x1 {
                handled_req_cnt = add64 x1.handled_req_cnt dyn_batch;
                read_idx = bump dyn_batch x1.read_idx;
                read_head = head;
                batch = dyn_batch;
              },
              w',
              loads',
            )
      ]

  -- A round of `Prefetcher::run` between the look at the ring and the push.
  pub prefetch_batch : ℕ → Prefetcher → W → Prefetcher × W
  prefetch_batch batch_sz x w =
      let x1 = prefetch_rewind x in
      let (w', head) = walk t.prefetch_cowns batch_sz x1.read_head w in
      (record x1 { read_head = head; idx = bump batch_sz x1.idx }, w')

  module _ (init_time_log_arr : ℕ → ℕ) where
    -- `Spawner::dispatch_one` and the counters behind it, `n` times.
    pub spawn_loop : ℕ → Spawner → W → Spawner × W
    spawn_loop zero x w = (x, w)
    spawn_loop (suc n) x w =
        let init_time = init_time_log_arr x.txn_log_id in
        let (w', ret) = t.parse_and_process x.read_head init_time w in
        spawn_loop n
          (record x {
            txn_log_id = add64 x.txn_log_id 1;
            read_head = x.read_head + ret;
            idx = add32 x.idx 1;
            tx_count = add64 x.tx_count 1;
            tx_spawn_sum = add64 x.tx_spawn_sum 1;
          })
          w'

    -- A round of `Spawner::run` between the look at the ring and the pop.
    pub spawn_batch : ℕ → Spawner → W → Spawner × W
    spawn_batch batch_sz x w =
        let x1 = spawn_rewind x in
        let (w1, prep) = walk t.prefetch_cowns batch_sz x1.prepare_read_head w in
        spawn_loop batch_sz (record x1 { prepare_read_head = prep }) w1
