-- ===== src/Rpc.antt =====
-- struct RPCHandler of src/doradd/rpc_handler.hpp, in the build with RPC_LATENCY: the thread that stamps
-- the arrivals and counts them for the dispatchers.
--
-- A round is cut between the write of the time stamp and the atomic addition, where other threads may
-- read. Times are numbers; the clock, the second clock that stamps, and the drawn inter-arrival time
-- are arguments of a step.
pub mod Stamps
mod Tests
use doradd_storage.Base.{
  ℕ, ◌+◌, List, [], ◌∷◌, Option, none, some, if◌then◌else◌, ltb, leb, ◌==◌, add64,
}
use doradd_storage.Config.{rpc_log_size}

-- Where the thread stands: before the wait for the next arrival, before the addition, or behind the
-- loop.
pub data Phase : Type 0 where
  waiting : Phase
  counting : Phase
  stopped : Phase

pub record RpcHandler : Type 0 where
  pub phase : Phase
  pub avail_cnt : ℕ
  pub next_ts : ℕ
  pub i : ℕ
  -- The slots of the array at `log_arr`, `none` where nothing was written.
  pub log : ℕ → Option ℕ

unfoldable pub new_rpc_handler : ℕ → RpcHandler
new_rpc_handler time_ns = record {
  phase = waiting;
  avail_cnt = 0;
  next_ts = time_ns;
  i = 0;
  log = λ k. none;
}

pub record Tick : Type 0 where
  pub time_ns : ℕ
  pub now : ℕ
  pub inter_arrival : ℕ

-- `*addr = now()` at slot `i++`.
unfoldable pub stamp : ℕ → RpcHandler → RpcHandler
stamp now r = record r {
  phase = counting;
  i = r.i + 1;
  log = λ k. if k == r.i then some now else r.log k;
}

-- `avail_cnt->fetch_add(1); next_ts += gen_inter_arrival(dist);`
unfoldable pub count : ℕ → RpcHandler → RpcHandler
count gap r = record r {
  phase = waiting;
  avail_cnt = add64 r.avail_cnt 1;
  next_ts = r.next_ts + gap;
}

-- A step of `run`: a turn of the wait, the stamp or the break behind it, or the addition.
unfoldable pub step_at : Phase → Tick → RpcHandler → RpcHandler
step_at waiting t r =
    if ltb t.time_ns r.next_ts
    then r
    else if leb rpc_log_size r.i
    then record r { phase = stopped }
    else stamp t.now r
step_at counting t r = count t.inter_arrival r
step_at stopped t r = r

unfoldable pub step : Tick → RpcHandler → RpcHandler
step t r = step_at r.phase t r

unfoldable pub run : List Tick → RpcHandler → RpcHandler
run [] r = r
run (t ∷ ts) r = run ts (step t r)
