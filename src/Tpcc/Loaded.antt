-- ===== src/Tpcc/Loaded.antt =====
-- What the loader leaves in the tables.
use doradd_storage.Base.{ℕ, ◌+◌, ◌*◌, ◌<◌, ◌≡◌, refl, sym, ◌∙◌, some, arith}
use doradd_storage.Tpcc.{
  tsize_warehouse, tsize_district, tsize_customer, tsize_history, tsize_item, tsize_stock,
  tsize_order, tsize_order_line,
}
use doradd_storage.Tpcc.Entries.{
  warehouse_key, district_key, customer_key, history_key, item_row_key, stock_row_key,
}
use doradd_storage.Tpcc.Rows.{Floats}
use doradd_storage.Tpcc.Rand.{Platform}
use doradd_storage.Tables.{new}
use doradd_storage.Tables.Filled.{IsFilled, place-IsFilled}
use doradd_storage.Tpcc.Load.{
  Arrays, Loading, warehouse_row, district_row, customer_row, history_row, add_warehouse,
  add_district, add_customer, add_history,
}
use doradd_storage.Tpcc.LoadOrders.{item_row, stock_row, add_item, add_stock}

module _ (p : Platform) (f : Floats) (arrays : Arrays) where
  -- How many rows of each table are placed; the tables are filled from the front.
  pub record Progress (kw kd kc kh ki ks : ℕ) (l : Loading f) : Type 0 where
    pub warehouse_cnt : l.db.warehouse_table.cnt ≡ kw
    pub warehouse_fill : IsFilled tsize_warehouse arrays.warehouse 1024 l.db.warehouse_table
    pub district_cnt : l.db.district_table.cnt ≡ kd
    pub district_fill : IsFilled tsize_district arrays.district 1024 l.db.district_table
    pub customer_cnt : l.db.customer_table.cnt ≡ kc
    pub customer_fill : IsFilled tsize_customer arrays.customer (2 * 1024) l.db.customer_table
    pub history_cnt : l.db.history_table.cnt ≡ kh
    pub history_fill : IsFilled tsize_history arrays.history 1024 l.db.history_table
    pub item_cnt : l.db.item_table.cnt ≡ ki
    pub item_fill : IsFilled tsize_item arrays.item 1024 l.db.item_table
    pub stock_cnt : l.db.stock_table.cnt ≡ ks
    pub stock_fill : IsFilled tsize_stock arrays.stock 1024 l.db.stock_table
    pub orders_new :
        (l.db.order_table ≡ new tsize_order) × (l.db.order_line_table ≡ new tsize_order_line)

  pub add_warehouse-Progress :
      (w_id kw kd kc kh ki ks : ℕ) (l : Loading f)
      → Progress kw kd kc kh ki ks l
      → warehouse_key w_id ≡ kw
      → kw < tsize_warehouse
      → (l' : Loading f) × (add_warehouse p f arrays w_id l ≡ some l')
        × Progress (kw + 1) kd kc kh ki ks l'
  unfolding add_warehouse
  add_warehouse-Progress w_id kw kd kc kh ki ks l g e room =
      let drawn = warehouse_row p f w_id l.source in
      let (t, done, cnt, fill) =
        place-IsFilled tsize_warehouse arrays.warehouse 1024 (warehouse_key w_id) drawn.0
          l.db.warehouse_table g.warehouse_fill (g.warehouse_cnt ∙ sym e) (omega (arith, e)) in
      (
        record { db = record l.db { warehouse_table = t }; source = drawn.1 },
        rw (done, add_warehouse) refl,
        record {
          warehouse_cnt = omega (arith, cnt, e);
          warehouse_fill = fill;
          district_cnt = g.district_cnt;
          district_fill = g.district_fill;
          customer_cnt = g.customer_cnt;
          customer_fill = g.customer_fill;
          history_cnt = g.history_cnt;
          history_fill = g.history_fill;
          item_cnt = g.item_cnt;
          item_fill = g.item_fill;
          stock_cnt = g.stock_cnt;
          stock_fill = g.stock_fill;
          orders_new = g.orders_new;
        },
      )

  pub add_district-Progress :
      (w_id d_id kw kd kc kh ki ks : ℕ) (l : Loading f)
      → Progress kw kd kc kh ki ks l
      → district_key w_id d_id ≡ kd
      → kd < tsize_district
      → (l' : Loading f) × (add_district p f arrays w_id d_id l ≡ some l')
        × Progress kw (kd + 1) kc kh ki ks l'
  unfolding add_district
  add_district-Progress w_id d_id kw kd kc kh ki ks l g e room =
      let drawn = district_row p f w_id d_id l.source in
      let (t, done, cnt, fill) =
        place-IsFilled tsize_district arrays.district 1024 (district_key w_id d_id) drawn.0
          l.db.district_table g.district_fill (g.district_cnt ∙ sym e) (omega (arith, e)) in
      (
        record { db = record l.db { district_table = t }; source = drawn.1 },
        rw (done, add_district) refl,
        record {
          warehouse_cnt = g.warehouse_cnt;
          warehouse_fill = g.warehouse_fill;
          district_cnt = omega (arith, cnt, e);
          district_fill = fill;
          customer_cnt = g.customer_cnt;
          customer_fill = g.customer_fill;
          history_cnt = g.history_cnt;
          history_fill = g.history_fill;
          item_cnt = g.item_cnt;
          item_fill = g.item_fill;
          stock_cnt = g.stock_cnt;
          stock_fill = g.stock_fill;
          orders_new = g.orders_new;
        },
      )

  pub add_customer-Progress :
      (w_id d_id c_id kw kd kc kh ki ks : ℕ) (l : Loading f)
      → Progress kw kd kc kh ki ks l
      → customer_key w_id d_id c_id ≡ kc
      → kc < tsize_customer
      → (l' : Loading f) × (add_customer p f arrays w_id d_id c_id l ≡ some l')
        × Progress kw kd (kc + 1) kh ki ks l'
  unfolding add_customer
  add_customer-Progress w_id d_id c_id kw kd kc kh ki ks l g e room =
      let drawn = customer_row p f w_id d_id c_id l.source in
      let (t, done, cnt, fill) =
        place-IsFilled tsize_customer arrays.customer (2 * 1024) (customer_key w_id d_id c_id)
          drawn.0 l.db.customer_table g.customer_fill (g.customer_cnt ∙ sym e) (omega (arith, e)) in
      (
        record { db = record l.db { customer_table = t }; source = drawn.1 },
        rw (done, add_customer) refl,
        record {
          warehouse_cnt = g.warehouse_cnt;
          warehouse_fill = g.warehouse_fill;
          district_cnt = g.district_cnt;
          district_fill = g.district_fill;
          customer_cnt = omega (arith, cnt, e);
          customer_fill = fill;
          history_cnt = g.history_cnt;
          history_fill = g.history_fill;
          item_cnt = g.item_cnt;
          item_fill = g.item_fill;
          stock_cnt = g.stock_cnt;
          stock_fill = g.stock_fill;
          orders_new = g.orders_new;
        },
      )

  pub add_history-Progress :
      (w_id d_id c_id kw kd kc kh ki ks : ℕ) (l : Loading f)
      → Progress kw kd kc kh ki ks l
      → history_key w_id d_id c_id ≡ kh
      → kh < tsize_history
      → (l' : Loading f) × (add_history p f arrays w_id d_id c_id l ≡ some l')
        × Progress kw kd kc (kh + 1) ki ks l'
  unfolding add_history
  add_history-Progress w_id d_id c_id kw kd kc kh ki ks l g e room =
      let drawn = history_row p f w_id d_id c_id l.source in
      let (t, done, cnt, fill) =
        place-IsFilled tsize_history arrays.history 1024 (history_key w_id d_id c_id) drawn.0
          l.db.history_table g.history_fill (g.history_cnt ∙ sym e) (omega (arith, e)) in
      (
        record { db = record l.db { history_table = t }; source = drawn.1 },
        rw (done, add_history) refl,
        record {
          warehouse_cnt = g.warehouse_cnt;
          warehouse_fill = g.warehouse_fill;
          district_cnt = g.district_cnt;
          district_fill = g.district_fill;
          customer_cnt = g.customer_cnt;
          customer_fill = g.customer_fill;
          history_cnt = omega (arith, cnt, e);
          history_fill = fill;
          item_cnt = g.item_cnt;
          item_fill = g.item_fill;
          stock_cnt = g.stock_cnt;
          stock_fill = g.stock_fill;
          orders_new = g.orders_new;
        },
      )

  pub add_item-Progress :
      (i_id kw kd kc kh ki ks : ℕ) (l : Loading f)
      → Progress kw kd kc kh ki ks l
      → item_row_key (item_row p f i_id l.source).0 ≡ ki
      → ki < tsize_item
      → (l' : Loading f) × (add_item p f arrays i_id l ≡ some l')
        × Progress kw kd kc kh (ki + 1) ks l'
  unfolding add_item
  add_item-Progress i_id kw kd kc kh ki ks l g e room =
      let drawn = item_row p f i_id l.source in
      let (t, done, cnt, fill) =
        place-IsFilled tsize_item arrays.item 1024 (item_row_key (item_row p f i_id l.source).0)
          drawn.0 l.db.item_table g.item_fill (g.item_cnt ∙ sym e) (omega (arith, e)) in
      (
        record { db = record l.db { item_table = t }; source = drawn.1 },
        rw (done, add_item) refl,
        record {
          warehouse_cnt = g.warehouse_cnt;
          warehouse_fill = g.warehouse_fill;
          district_cnt = g.district_cnt;
          district_fill = g.district_fill;
          customer_cnt = g.customer_cnt;
          customer_fill = g.customer_fill;
          history_cnt = g.history_cnt;
          history_fill = g.history_fill;
          item_cnt = omega (arith, cnt, e);
          item_fill = fill;
          stock_cnt = g.stock_cnt;
          stock_fill = g.stock_fill;
          orders_new = g.orders_new;
        },
      )

  pub add_stock-Progress :
      (w_id i_id kw kd kc kh ki ks : ℕ) (l : Loading f)
      → Progress kw kd kc kh ki ks l
      → stock_row_key (stock_row p f w_id i_id l.source).0 ≡ ks
      → ks < tsize_stock
      → (l' : Loading f) × (add_stock p f arrays w_id i_id l ≡ some l')
        × Progress kw kd kc kh ki (ks + 1) l'
  unfolding add_stock
  add_stock-Progress w_id i_id kw kd kc kh ki ks l g e room =
      let drawn = stock_row p f w_id i_id l.source in
      let (t, done, cnt, fill) =
        place-IsFilled tsize_stock arrays.stock 1024
          (stock_row_key (stock_row p f w_id i_id l.source).0) drawn.0 l.db.stock_table g.stock_fill
          (g.stock_cnt ∙ sym e) (omega (arith, e)) in
      (
        record { db = record l.db { stock_table = t }; source = drawn.1 },
        rw (done, add_stock) refl,
        record {
          warehouse_cnt = g.warehouse_cnt;
          warehouse_fill = g.warehouse_fill;
          district_cnt = g.district_cnt;
          district_fill = g.district_fill;
          customer_cnt = g.customer_cnt;
          customer_fill = g.customer_fill;
          history_cnt = g.history_cnt;
          history_fill = g.history_fill;
          item_cnt = g.item_cnt;
          item_fill = g.item_fill;
          stock_cnt = omega (arith, cnt, e);
          stock_fill = fill;
          orders_new = g.orders_new;
        },
      )
