-- ===== src/Ycsb.antt =====
-- app/ycsb.cc, app/ycsb/db.hpp and app/ycsb/constants.hpp.
--
-- A cown is named by its base address. The heap maps the address of a row's cown to the bytes of its
-- payload, and the log maps the address of a transaction to its fields.
pub mod Table
pub mod Body
pub mod Setup
pub mod Determinism
pub mod Result
mod Tests
use doradd_storage.Base.{
  ℕ, ◌+◌, ◌%◌, ◌/◌, List, [], ◌∷◌, ◌++◌, map, Bool, true, false, if◌then◌else◌, ◌==◌, drop,
  replicate, get_or,
}
use doradd_storage.Txn.{TxnType}
use Table.{Index, get_row}

abbrev pub rows_per_tx : ℕ
rows_per_tx = 10

abbrev pub row_size : ℕ
row_size = 900

abbrev pub write_size : ℕ
write_size = 100

abbrev pub db_size : ℕ
db_size = 10_000_000

-- The build without STORAGE_TIER.
abbrev pub cown_stride : ℕ
cown_stride = 1024

-- `sizeof(YCSBTransactionMarshalled)`
abbrev pub marshalled_size : ℕ
marshalled_size = 128

pub record YcsbTransactionMarshalled : Type 0 where
  pub indices : List ℕ
  pub write_set : ℕ
  pub cown_ptrs : List ℕ

-- What `when` is given: the acquired cowns in order, and the captured `ws_cap`.
pub record Behaviour : Type 0 where
  pub cowns : List ℕ
  pub ws_cap : ℕ

abbrev pub Rows : Type 0
Rows = ℕ → List ℕ

unfoldable pub write_row : ℕ → List ℕ → Rows → Rows
write_row addr payload rows a = if a == addr then payload else rows a

-- `memset(payload, sum, WRITE_SIZE)`
unfoldable pub memset : List ℕ → ℕ → List ℕ
memset payload sum = replicate write_size sum ++ drop write_size payload

-- `sum += payload[j]` over the whole row, in eight bits.
unfoldable pub add_payload : List ℕ → ℕ → ℕ
add_payload [] sum = sum
add_payload (b ∷ payload) sum = add_payload payload ((sum + b) % 256)

-- The local variables of the lambda.
pub record Locals : Type 0 where
  pub rows : Rows
  pub sum : ℕ
  pub write_set_l : ℕ

-- The macro TXN at one acquired row.
unfoldable pub txn_row : ℕ → Locals → Locals
unfolding write_row memset add_payload
txn_row addr s =
    if s.write_set_l % 2 == 1
    then record s {
      rows = write_row addr (memset (s.rows addr) s.sum) s.rows;
      write_set_l = s.write_set_l / 2;
    }
    else record s { sum = add_payload (s.rows addr) s.sum; write_set_l = s.write_set_l / 2 }

unfoldable pub txn_rows : List ℕ → Locals → Locals
unfolding txn_row
txn_rows [] s = s
txn_rows (addr ∷ addrs) s = txn_rows addrs (txn_row addr s)

-- The lambda, as far as the rows go.
unfoldable pub body : Behaviour → Rows → Rows
unfolding txn_rows
body b rows = (txn_rows b.cowns (record { rows = rows; sum = 0; write_set_l = b.ws_cap })).rows

pub record World : Type 0 where
  pub index : Index
  pub log : ℕ → YcsbTransactionMarshalled
  pub spawned : List Behaviour

-- The loop writes the base address of each row of the transaction into the log.
pub prepare_cowns : ℕ → World → World × ℕ
prepare_cowns input w =
    let txm = w.log input in
    let found = record txm { cown_ptrs = map (get_row w.index) txm.indices } in
    (record w { log = λ a. if a == input then found else w.log a }, marshalled_size)

-- Prefetching changes nothing.
pub prefetch_cowns : ℕ → World → World × ℕ
prefetch_cowns input w = (w, marshalled_size)

-- GET_COWN in the builds with INDEXER or TEST_TWO, GET_ROW in the others.
pub acquired : Bool → Index → YcsbTransactionMarshalled → List ℕ
acquired true index txm = txm.cown_ptrs
acquired false index txm = map (get_row index) txm.indices

pub parse_and_process : Bool → ℕ → ℕ → World → World × ℕ
unfolding acquired
parse_and_process indexer input init_time w =
    let txm = w.log input in
    let b : Behaviour = record { cowns = acquired indexer w.index txm; ws_cap = txm.write_set } in
    (record w { spawned = w.spawned ++ (b ∷ []) }, marshalled_size)

-- YCSBTransaction as the argument of the dispatchers.
unfoldable pub ycsb_transaction : Bool → TxnType World
unfolding prepare_cowns prefetch_cowns parse_and_process
ycsb_transaction indexer = record {
  prepare_cowns = prepare_cowns;
  prefetch_cowns = prefetch_cowns;
  parse_and_process = parse_and_process indexer;
}
