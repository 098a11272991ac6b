-- ===== src/Tpcc/Split.antt =====
-- The two builds of app/tpcc.cc, with and without WAREHOUSE_SPLIT.
use doradd_storage.Base.{
  ℕ, ◌≡◌, refl, ap, List, [], ◌∷◌, true, false, Option, none, some, add64, arith,
}
use mathlib.Core.Path.{fun_ext}
use doradd_storage.Tpcc.Beside.{IsBeside, after, new_order_rest-op}
use doradd_storage.Tpcc.Rows.{Floats, Rows, update, warehouse_op}
use doradd_storage.Tpcc.NewOrder.{param, new_order_rest, take_order_id}
use doradd_storage.Tpcc.Payment.{payment_rest}
use doradd_storage.Tpcc.Entries.{Warehouse}
use doradd_storage.Tpcc.Txn.{
  TpccTransactionMarshalled, Behaviour, run_behaviour, run_behaviours, behaviours, when_split,
}

module _ (f : Floats) (junk : ℕ) (junk_text : List ℕ) where
  -- The behaviours that the build with WAREHOUSE_SPLIT spawns for a transaction do together what the
  -- single one of the other build does, exceptions included.
  pub behaviours-split :
      (txm : TpccTransactionMarshalled) (r : Rows f)
      → run_behaviours f junk junk_text (behaviours true txm) r
        ≡ run_behaviours f junk junk_text (behaviours false txm) r
  unfolding behaviours when_split run_behaviours run_behaviour
  behaviours-split txm r = ground arith

  warehouse_op-IsBeside : (w h : ℕ) → IsBeside f (warehouse_op f w h)
  unfolding warehouse_op
  warehouse_op-IsBeside w h = record {
    same_items = λ r. refl;
    same_stocks = λ r. refl;
    same_lines = λ r. refl;
    same_orders = λ r. refl;
    same_new_orders = λ r. refl;
    any_stocks = λ s r. refl;
    any_lines = λ t r. refl;
    any_orders = λ t t' r. refl;
  }

  pub new_order_rest-after :
      (params : List ℕ) (d : ℕ) (lines : List (ℕ × ℕ)) (w h : ℕ) (r : Rows f)
      → new_order_rest f junk junk_text params d lines (warehouse_op f w h r)
        ≡ after (warehouse_op f w h) (new_order_rest f junk junk_text params d lines r)
  unfolding warehouse_op take_order_id
  new_order_rest-after params d lines w h r =
      new_order_rest-op f junk junk_text (warehouse_op f w h) (warehouse_op-IsBeside w h) params d
        lines r refl refl

  add_twice :
      (w h w' h' : ℕ) (ws : ℕ → Warehouse) (a : ℕ)
      → let one : ℕ → ℕ → (ℕ → Warehouse) → ℕ → Warehouse =
          λ v k vs. update v (record (vs v) { w_ytd = add64 (vs v).w_ytd k }) vs in
        one w h (one w' h' ws) a ≡ one w' h' (one w h ws) a
  add_twice w h w' h' ws a = ground arith

  pub warehouse_op-commutes :
      (w h w' h' : ℕ) (r : Rows f)
      → warehouse_op f w h (warehouse_op f w' h' r) ≡ warehouse_op f w' h' (warehouse_op f w h r)
  unfolding warehouse_op
  warehouse_op-commutes w h w' h' r =
      ap (λ ws. record r { warehouses = ws }) (fun_ext (add_twice w h w' h' r.warehouses))

  after_last :
      (w h : ℕ) (o : Option (Rows f))
      → (elim (after (warehouse_op f w h) o) [ none ↦ none | some r ↦ some r ]) ≡ (elim o [
        | none ↦ none
        | some r ↦ run_behaviours f junk junk_text (Behaviour.add_to_warehouse w h ∷ []) r
      ])
  unfolding run_behaviours run_behaviour
  after_last w h none = refl
  after_last w h (some r) = refl

  pub payment_rest-op :
      (d c a w h : ℕ) (r : Rows f)
      → payment_rest f d c a (warehouse_op f w h r) ≡ warehouse_op f w h (payment_rest f d c a r)
  unfolding payment_rest warehouse_op
  payment_rest-op d c a w h r = refl

  -- The behaviour that the split takes out of a transaction, addition to the warehouse's total, may run
  -- before or after any behaviour of any transaction: the rows are the same, and so are the
  -- exceptions.
  pub add_to_warehouse-commutes :
      (w h : ℕ) (b : Behaviour) (r : Rows f)
      → run_behaviours f junk junk_text (Behaviour.add_to_warehouse w h ∷ b ∷ []) r
        ≡ run_behaviours f junk junk_text (b ∷ Behaviour.add_to_warehouse w h ∷ []) r
  unfolding run_behaviours run_behaviour
  add_to_warehouse-commutes w h (Behaviour.add_to_warehouse w' h') r =
      ap some (warehouse_op-commutes w' h' w h r)
  add_to_warehouse-commutes w h (Behaviour.new_order w' d c lines params) r =
      let a = param params 52 in
      rw
        (
          warehouse_op-commutes w' a w h r,
          new_order_rest-after params d lines w h (warehouse_op f w' a r),
          run_behaviours,
          run_behaviour,
        )
        (after_last w h (new_order_rest f junk junk_text params d lines (warehouse_op f w' a r)))
  add_to_warehouse-commutes w h (Behaviour.new_order_split d c lines params) r =
      rw (new_order_rest-after params d lines w h r, run_behaviours, run_behaviour)
        (after_last w h (new_order_rest f junk junk_text params d lines r))
  add_to_warehouse-commutes w h (Behaviour.payment_all w' d c params) r =
      let a = param params 52 in
      rw (warehouse_op-commutes w' a w h r, run_behaviours, run_behaviour)
        (ap some (payment_rest-op d c a w h (warehouse_op f w' a r)))
  add_to_warehouse-commutes w h (Behaviour.payment_split d c params) r =
      ap some (payment_rest-op d c (param params 52) w h r)
