-- ===== src/PipeProfile.antt =====
-- app/pipeline-profile/core.hpp and test.cc: a chain of cores that pass batches on through rings. Core 0
-- is the FirstCore, core `last` the LastCore, and the others are Workers; ring k leads from core k to the
-- next one. What is pushed is always BATCH_SZ, so that a ring is the number of its entries.
--
-- A round of a `run` loop is one step: it is taken when neither `front` nor `push` makes the core wait.
pub mod Rounds
pub mod Progress
mod Tests
use doradd_storage.Base.{
  ℕ, zero, suc, ◌+◌, ◌-◌, Bool, true, false, not, ◌&&◌, ◌||◌, Option, none, some, if◌then◌else◌,
  ltb, leb, ◌==◌,
}

abbrev pub buf_sz : ℕ
buf_sz = 4

abbrev pub batch_sz : ℕ
batch_sz = 8

-- `sizeof(TxnMarshalled)`
abbrev pub txn_size : ℕ
txn_size = 64

abbrev pub termination_count : ℕ
termination_count = 40_000_000

-- The field `value` of the transaction at an address.
abbrev pub Memory : Type 0
Memory = ℕ → ℕ

pub read_txn : ℕ → Memory → Memory × ℕ
read_txn input m = (m, txn_size)

pub write_txn : ℕ → Memory → Memory × ℕ
write_txn input m = ((λ a. if a == input then 1 else m a), txn_size)

pub record Worker : Type 0 where
  pub cnt : ℕ
  pub processed_cnt : ℕ
  pub read_cnt : ℕ
  pub read_top : ℕ
  pub read_head : ℕ

abbrev pub new_worker : ℕ → ℕ → Worker
new_worker read_top read_cnt = record {
  cnt = 0;
  processed_cnt = 0;
  read_cnt = read_cnt;
  read_top = read_top;
  read_head = read_top;
}

-- `if (cnt > (read_cnt - BATCH_SZ))`, where the numbers are signed.
unfoldable pub rewind : Worker → Worker
rewind x =
    if ltb x.read_cnt (x.cnt + batch_sz) then record x { read_head = x.read_top; cnt = 0 } else x

unfoldable pub terminate : Worker → Bool
terminate x = leb termination_count x.processed_cnt

pub record System : Type 0 where
  pub cores : ℕ → Worker
  pub rings : ℕ → ℕ
  pub memory : Memory

-- What `runPipeline` sets up.
abbrev pub start : ℕ → ℕ → Memory → System
start read_head read_cnt m = record {
  cores = λ k. new_worker read_head read_cnt;
  rings = λ k. 0;
  memory = m;
}

-- `inputRing->front()` is not null; the FirstCore has no input ring.
unfoldable pub has_input : ℕ → System → Bool
has_input zero s = true
has_input (suc k) s = ltb 0 (s.rings k)

-- `outputRing->push` does not wait; the LastCore has no output ring.
unfoldable pub has_room : ℕ → ℕ → System → Bool
has_room last k s = leb last k || ltb (s.rings k) buf_sz

-- The push of core `k`, and its pop.
unfoldable pub pass_on : ℕ → ℕ → (ℕ → ℕ) → ℕ → ℕ
pass_on last k rings j =
    if j == k && ltb k last then rings j + 1 else if j + 1 == k then rings j - 1 else rings j

module _ (process : ℕ → Memory → Memory × ℕ) where
  unfoldable pub dispatch_loop : ℕ → Worker → Memory → Worker × Memory
  dispatch_loop zero x m = (x, m)
  dispatch_loop (suc n) x m =
      let (m', ret) = process x.read_head m in
      dispatch_loop n (record x { read_head = x.read_head + ret; cnt = x.cnt + 1 }) m'

  unfoldable pub dispatch_batch : Worker → Memory → Worker × Memory
  dispatch_batch x m =
      let (x', m') = dispatch_loop batch_sz (rewind x) m in
      (record x' { processed_cnt = x'.processed_cnt + batch_sz }, m')

  -- The state after a round of core `k`.
  unfoldable pub advance : ℕ → ℕ → System → System
  advance last k s =
      let (x, m) = dispatch_batch (s.cores k) s.memory in
      record {
        cores = λ j. if j == k then x else s.cores j;
        rings = pass_on last k s.rings;
        memory = m;
      }

  -- `none` while the core waits, and when it has terminated.
  unfoldable pub round : ℕ → ℕ → System → Option System
  round last k s =
      if not (terminate (s.cores k)) && has_input k s && has_room last k s
      then some (advance last k s)
      else none
