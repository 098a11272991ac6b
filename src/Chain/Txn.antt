-- ===== src/Chain/Txn.antt =====
-- ChainTransaction of app/chain.cc with the macros of app/chain/macros.hpp, for each of the four
-- workloads, and the rows and tables of app/chain/entries.hpp, tables.hpp and db.hpp.
--
-- The lambdas change no row: they wait, and count the transaction.
use doradd_storage.Base.{
  ℕ, ◌-◌, List, [], ◌∷◌, ◌++◌, Option, none, some, if◌then◌else◌, ◌==◌, get_or, sub32,
}
use doradd_storage.Txn.{TxnType}
use doradd_storage.Txn.Pointers.{fill_ptrs}
use doradd_storage.Tables.{Table, get_row, base_addr}
use doradd_storage.Chain.{Workload, mixed, nft, p2p, dex, num_cown, num_resrc_cown, marshalled_size}
use doradd_storage.Chain.Switch.{switch_mixed}

pub record Resource : Type 0 where
  pub value : ℕ

pub record User : Type 0 where
  pub value : ℕ

pub record Database : Type 0 where
  pub resource_table : Table Resource
  pub user_table : Table User

-- `num_writes` and `gas` are there in Mixed only.
pub record Marshalled : Type 0 where
  pub num_writes : ℕ
  pub gas : ℕ
  pub params : List ℕ
  pub cown_ptrs : List ℕ

-- What `when` is given: the cowns, and the gas where it is captured.
pub record Behaviour : Type 0 where
  pub cowns : List ℕ
  pub gas : Option ℕ

pub record World : Type 0 where
  pub index : Database
  pub log : ℕ → Marshalled
  pub spawned : List Behaviour

-- `table.get_row_addr(txm->params[i] - 1)->get_base_addr()`, the subtraction in 32 bits.
unfoldable pub row_of : {T : Type 0} → Table T → List ℕ → ℕ → ℕ
row_of t params i = base_addr (get_row t (sub32 (get_or params i 0) 1))

-- The pointers that `prepare_cowns` leaves in the log. In Mixed the loop runs over `num_writes`, in the
-- other workloads over the resources and then over the users.
unfoldable pub found_ptrs : Workload → Database → Marshalled → List ℕ
found_ptrs mixed index txm =
    fill_ptrs (row_of index.resource_table txm.params) 0 0 txm.num_writes txm.cown_ptrs
found_ptrs t index txm =
    fill_ptrs (row_of index.user_table txm.params) 0 (num_resrc_cown t)
      (num_cown t - num_resrc_cown t)
      (fill_ptrs (row_of index.resource_table txm.params) 0 0 (num_resrc_cown t) txm.cown_ptrs)

unfoldable pub prepare_cowns : Workload → ℕ → World → World × ℕ
prepare_cowns t input w =
    let txm = w.log input in
    let found = record txm { cown_ptrs = found_ptrs t w.index txm } in
    (record w { log = λ a. if a == input then found else w.log a }, marshalled_size t)

-- Prefetching changes nothing.
unfoldable pub prefetch_cowns : Workload → ℕ → World → World × ℕ
prefetch_cowns t input w = (w, marshalled_size t)

-- GET_COWN: register `i` is the cown of pointer `i`.
unfoldable pub get_cown : Marshalled → ℕ → ℕ
get_cown txm i = get_or txm.cown_ptrs i 0

unfoldable pub behaviours : Workload → Marshalled → List Behaviour
behaviours mixed txm = elim (switch_mixed txm.num_writes (get_cown txm)) [
  | none ↦ []
  | some cowns ↦ record { cowns = cowns; gas = some txm.gas } ∷ []
]
behaviours nft txm = record { cowns = get_cown txm 0 ∷ get_cown txm 1 ∷ []; gas = none } ∷ []
behaviours p2p txm = record { cowns = get_cown txm 0 ∷ get_cown txm 1 ∷ []; gas = none } ∷ []
behaviours dex txm = record { cowns = get_cown txm 0 ∷ []; gas = none } ∷ []

unfoldable pub parse_and_process : Workload → ℕ → ℕ → World → World × ℕ
parse_and_process t input init_time w =
    (record w { spawned = w.spawned ++ behaviours t (w.log input) }, marshalled_size t)

unfoldable pub chain_transaction : Workload → TxnType World
chain_transaction t = record {
  prepare_cowns = prepare_cowns t;
  prefetch_cowns = prefetch_cowns t;
  parse_and_process = parse_and_process t;
}
