-- ===== src/Tpcc/Txn.antt =====
-- TPCCTransaction of app/tpcc.cc: what the pipeline's stages call, and the behaviours that are
-- spawned. `split` is the build with WAREHOUSE_SPLIT.
use doradd_storage.Txn.Pointers.{fill_ptrs}
use doradd_storage.Base.{
  ℕ, zero, suc, ◌+◌, List, [], ◌∷◌, ◌++◌, Bool, true, false, ◌&&◌, Option, none, some,
  if◌then◌else◌, ◌==◌, leb, get_or, set,
}
use doradd_storage.Txn.{TxnType}
use doradd_storage.Tpcc.Database.{Database}
use doradd_storage.Tables.{get_row, base_addr}
use doradd_storage.Tpcc.Entries.{warehouse_key, district_key, customer_key, stock_key, item_key}
use doradd_storage.Tpcc.Rows.{Floats, Rows, warehouse_op}
use doradd_storage.Tpcc.NewOrder.{param, new_order_rest}
use doradd_storage.Tpcc.Payment.{payment_rest}

pub record TpccTransactionMarshalled : Type 0 where
  pub txn_type : ℕ
  pub params : List ℕ
  pub cown_ptrs : List ℕ

-- `sizeof(TPCCTransactionMarshalled)`: 1 + 65 * 4 + 33 * 8 + 51.
abbrev pub marshalled_size : ℕ
marshalled_size = 576

-- What `when` is given. A new order has the pairs of its stocks and items; with the split the
-- warehouse is acquired by a behaviour of its own.
pub data Behaviour : Type 0 where
  add_to_warehouse : (w h_amount : ℕ) → Behaviour
  new_order : (w d c : ℕ) → (lines : List (ℕ × ℕ)) → (params : List ℕ) → Behaviour
  new_order_split : (d c : ℕ) → (lines : List (ℕ × ℕ)) → (params : List ℕ) → Behaviour
  payment_all : (w d c : ℕ) → (params : List ℕ) → Behaviour
  payment_split : (d c : ℕ) → (params : List ℕ) → Behaviour

module _ (f : Floats) (junk : ℕ) (junk_text : List ℕ) where
  -- The lambdas: `none` where an `insert_row` throws.
  unfoldable pub run_behaviour : Behaviour → Rows f → Option (Rows f)
  run_behaviour (add_to_warehouse w h_amount) r = some (warehouse_op f w h_amount r)
  run_behaviour (new_order w d c lines params) r =
      new_order_rest f junk junk_text params d lines (warehouse_op f w (param params 52) r)
  run_behaviour (new_order_split d c lines params) r =
      new_order_rest f junk junk_text params d lines r
  run_behaviour (payment_all w d c params) r =
      some (payment_rest f d c (param params 52) (warehouse_op f w (param params 52) r))
  run_behaviour (payment_split d c params) r = some (payment_rest f d c (param params 52) r)

  -- Behaviours one after the other.
  unfoldable pub run_behaviours : List Behaviour → Rows f → Option (Rows f)
  run_behaviours [] r = some r
  run_behaviours (b ∷ bs) r = elim (run_behaviour b r) [
    | none ↦ none
    | some r' ↦ run_behaviours bs r'
  ]

pub record World (f : Floats) : Type 0 where
  pub index : Database f.Float
  pub log : ℕ → TpccTransactionMarshalled
  pub spawned : List Behaviour

module _ (f : Floats) where
  -- The assignments that both transactions have: warehouse, district and customer.
  unfoldable pub head_ptrs : Database f.Float → List ℕ → List ℕ → List ℕ
  head_ptrs index params ptrs =
      let w = param params 0 in
      let d = param params 1 in
      let c = param params 2 in
      set
        (set (set ptrs 0 (base_addr (get_row index.warehouse_table (warehouse_key w)))) 1
          (base_addr (get_row index.district_table (district_key w d))))
        2 (base_addr (get_row index.customer_table (customer_key w d c)))

  unfoldable pub stock_addr : Database f.Float → List ℕ → ℕ → ℕ
  stock_addr index params i =
      base_addr
        (get_row index.stock_table (stock_key (param params (20 + i)) (param params (5 + i))))

  unfoldable pub item_addr : Database f.Float → List ℕ → ℕ → ℕ
  item_addr index params i = base_addr (get_row index.item_table (item_key (param params (5 + i))))

  -- The pointers that `prepare_cowns` leaves in the log.
  unfoldable pub found_ptrs : Database f.Float → TpccTransactionMarshalled → List ℕ
  found_ptrs index txm =
      let heads = head_ptrs index txm.params txm.cown_ptrs in
      let n = param txm.params 50 in
      if txm.txn_type == 0
      then fill_ptrs (item_addr index txm.params) 18 0 n
          (fill_ptrs (stock_addr index txm.params) 3 0 n heads)
      else if txm.txn_type == 1
      then heads
      else txm.cown_ptrs

  unfoldable pub prepare_cowns : ℕ → World f → World f × ℕ
  prepare_cowns input w =
      let txm = w.log input in
      let found = record txm { cown_ptrs = found_ptrs w.index txm } in
      (record w { log = λ a. if a == input then found else w.log a }, marshalled_size)

  -- Prefetching changes nothing.
  unfoldable pub prefetch_cowns : ℕ → World f → World f × ℕ
  prefetch_cowns input w = (w, marshalled_size)

-- The pairs (s1, i1), (s2, i2), ... that GET_COWN_PTRS takes from the array, from `k` on.
unfoldable pub get_cown_ptrs : List ℕ → ℕ → ℕ → List (ℕ × ℕ)
get_cown_ptrs ptrs k zero = []
get_cown_ptrs ptrs k (suc n) =
    (get_or ptrs (2 + k) 0, get_or ptrs (17 + k) 0) ∷ get_cown_ptrs ptrs (k + 1) n

-- WHEN: with the split, first a behaviour on the warehouse alone.
unfoldable pub when_split : Bool → ℕ → ℕ → Behaviour → Behaviour → List Behaviour
when_split true w h_amount split whole = add_to_warehouse w h_amount ∷ split ∷ []
when_split false w h_amount split whole = whole ∷ []

-- What one transaction spawns. A new order with no item, or with more than 15, falls into the
-- `default` of the switch, and a transaction of another type is passed over.
unfoldable pub behaviours : Bool → TpccTransactionMarshalled → List Behaviour
behaviours split txm =
    let ps = txm.params in
    let w = get_or txm.cown_ptrs 0 0 in
    let d = get_or txm.cown_ptrs 1 0 in
    let c = get_or txm.cown_ptrs 2 0 in
    let lines = get_cown_ptrs txm.cown_ptrs 1 (param ps 50) in
    if txm.txn_type == 0
    then if leb 1 (param ps 50) && leb (param ps 50) 15
      then when_split split w (param ps 52) (new_order_split d c lines ps)
          (new_order w d c lines ps)
      else []
    else if txm.txn_type == 1
    then when_split split w (param ps 52) (payment_split d c ps) (payment_all w d c ps)
    else []

unfoldable pub parse_and_process : {f : Floats} → Bool → ℕ → ℕ → World f → World f × ℕ
parse_and_process split input init_time w =
    (record w { spawned = w.spawned ++ behaviours split (w.log input) }, marshalled_size)

unfoldable pub tpcc_transaction : (f : Floats) → Bool → TxnType (World f)
tpcc_transaction f split = record {
  prepare_cowns = prepare_cowns f;
  prefetch_cowns = prefetch_cowns f;
  parse_and_process = parse_and_process split;
}
