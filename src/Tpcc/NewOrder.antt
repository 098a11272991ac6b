-- ===== src/Tpcc/NewOrder.antt =====
-- The New Order transaction of app/tpcc.cc and app/tpcc_macros.m4.
--
-- The constructors of Order and OrderLine leave fields unset; `junk` and `junk_text` stand for what
-- the memory holds there. The local `amount` is left out: it is summed and never read.
use doradd_storage.Base.{
  ℕ, ◌+◌, ◌-◌, List, [], ◌∷◌, Option, none, some, ◌==◌, get_or, add64, u32_mod, ◌%◌,
}
use doradd_storage.Tpcc.{tsize_order, tsize_new_order, tsize_order_line}
use doradd_storage.Tables.{insert_row}
use doradd_storage.Tpcc.Entries.{
  Order, OrderLine, NewOrder, order_row_key, new_order_row_key, order_line_row_key,
}
use doradd_storage.Tpcc.Rows.{Floats, Rows, update}
use doradd_storage.Tpcc.Stock.{update_stock}

-- The array `params` of a transaction.
abbrev pub param : List ℕ → ℕ → ℕ
param params i = get_or params i 0

module _ (f : Floats) (junk : ℕ) (junk_text : List ℕ) where
  -- The line of INSERT_ORDER_LINE: the order's number in it is the variable `order_hash_key`.
  unfoldable pub order_line : List ℕ → ℕ → ℕ → ℕ → Rows f → OrderLine
  order_line params order_hash_key index i r =
      let qty = param params (35 + (index - 1)) in
      record {
        ol_o_id = order_hash_key;
        ol_d_id = param params 1;
        ol_w_id = param params 0;
        ol_i_id = param params (5 + (index - 1));
        ol_number = index;
        ol_supply_w_id = param params (20 + (index - 1));
        ol_delivery_d = junk;
        ol_quantity = qty;
        ol_amount = f.times (r.items i).i_price qty;
        ol_dist_info = junk_text;
      }

  -- INSERT_ORDER_LINE: `none` where `insert_row` throws.
  unfoldable pub insert_order_line : List ℕ → ℕ → ℕ → ℕ → Rows f → Option (Rows f)
  insert_order_line params order_hash_key index i r =
      let l = order_line params order_hash_key index i r in
      elim (insert_row tsize_order_line (order_line_row_key l)
        (record { placed = none; content = l }) r.order_line_table) [
          | none ↦ none
          | some (t, _) ↦ some (record r { order_line_table = t })
        ]

  -- UPDATE_STOCK
  unfoldable pub update_stock_row : List ℕ → ℕ → ℕ → Rows f → Rows f
  update_stock_row params index s r = record r {
    stocks =
        update s
          (update_stock (param params (35 + (index - 1))) (param params 51 == 1) (r.stocks s))
          r.stocks;
  }

  -- UPDATE_STOCK_AND_OL: the lines from `index` on, one for each acquired stock and item.
  unfoldable pub update_stock_and_ol : List ℕ → ℕ → ℕ → List (ℕ × ℕ) → Rows f → Option (Rows f)
  update_stock_and_ol params order_hash_key index [] r = some r
  update_stock_and_ol params order_hash_key index (l ∷ lines) r =
      elim (insert_order_line params order_hash_key index l.1
        (update_stock_row params index l.0 r)) [
          | none ↦ none
          | some r' ↦ update_stock_and_ol params order_hash_key (index + 1) lines r'
        ]

  unfoldable pub order_of : List ℕ → ℕ → Order
  order_of params oid = record {
    o_id = oid;
    o_d_id = param params 1;
    o_w_id = param params 0;
    o_c_id = junk;
    o_entry_d = junk;
    o_carrier_id = junk;
    o_ol_cnt = junk;
    o_all_local = junk;
  }

  -- The constructor takes the order's number as a `uint32_t`.
  unfoldable pub new_order_of : List ℕ → ℕ → NewOrder
  new_order_of params oid = record {
    no_o_id = oid % u32_mod;
    no_d_id = param params 1;
    no_w_id = param params 0;
  }

  -- NEWORDER_END
  unfoldable pub neworder_end : Order → NewOrder → Rows f → Option (Rows f)
  neworder_end o n r =
      elim (insert_row tsize_order (order_row_key o) (record { placed = none; content = o })
        r.order_table) [
          | none ↦ none
          | some (t, _) ↦
              elim (insert_row tsize_new_order (new_order_row_key n)
                (record { placed = none; content = n }) r.new_order_table) [
                  | none ↦ none
                  | some (t', _) ↦
                      some (record r {
                        order_table = t;
                        new_order_table = t';
                        counted = r.counted + 1;
                      })
                ]
        ]

  -- `_d->d_next_o_id += 1`
  unfoldable pub take_order_id : ℕ → Rows f → Rows f
  take_order_id d r =
      let row = r.districts d in
      record r {
        districts = update d (record row { d_next_o_id = add64 row.d_next_o_id 1 }) r.districts;
      }

  -- The lambda of __NEW_ORDER_CASE behind WAREHOUSE_OP.
  unfoldable pub new_order_rest : List ℕ → ℕ → List (ℕ × ℕ) → Rows f → Option (Rows f)
  new_order_rest params d lines r =
      let o = order_of params (r.districts d).d_next_o_id in
      let n = new_order_of params (r.districts d).d_next_o_id in
      elim (update_stock_and_ol params (order_row_key o) 1 lines (take_order_id d r)) [
        | none ↦ none
        | some r' ↦ neworder_end o n r'
      ]
