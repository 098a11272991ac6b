-- ===== src/Tpcc/Loader.antt =====
-- `main` of app/tpcc.cc up to the orders: the loader fills each table with the rows' own slots, so that
-- an id finds its row.
use doradd_storage.Base.{ℕ, ◌+◌, ◌-◌, ◌*◌, ◌>>=◌, ◌≡◌, refl, ◌∙◌, Option, some, arith, subst}
use doradd_storage.Tpcc.{
  num_warehouses, districts_per_warehouse, customers_per_district, num_items, stock_per_warehouse,
  tsize_warehouse, tsize_district, tsize_customer, tsize_history, tsize_item, tsize_stock,
  tsize_order, tsize_order_line, tsize_new_order,
}
use doradd_storage.Tpcc.Database.{Database}
use doradd_storage.Tables.{get_row, base_addr, new, for_ids}
use doradd_storage.Tpcc.Entries.{
  warehouse_key, district_key, customer_key, item_key, stock_key, item_row_key, stock_row_key,
}
use doradd_storage.Tpcc.Rows.{Floats}
use doradd_storage.Tpcc.Rand.{Platform, Source}
use doradd_storage.Tables.Filled.{for_ids-invariant, new-IsFilled}
use doradd_storage.Tpcc.Keys.{InRange, customer_key-value}
use doradd_storage.Tpcc.Load.{
  Arrays, Loading, generate_warehouses, generate_districts, generate_customer_and_history,
}
use doradd_storage.Tpcc.LoadOrders.{
  item_row, stock_row, add_item, add_stock, generate_items, generate_stocks,
}
use doradd_storage.Tpcc.Loaded.{Progress, add_item-Progress, add_stock-Progress}
use doradd_storage.Tpcc.LoadAll.{
  generate_warehouses-Progress, generate_districts-Progress, generate_customer_and_history-Progress,
}

abbrev pub empty_database : (f : Floats) → Database f.Float
empty_database f = record {
  warehouse_table = new tsize_warehouse;
  district_table = new tsize_district;
  customer_table = new tsize_customer;
  order_line_table = new tsize_order_line;
  stock_table = new tsize_stock;
  order_table = new tsize_order;
  new_order_table = new tsize_new_order;
  item_table = new tsize_item;
  history_table = new tsize_history;
}

-- The calls of `main`, the one for the orders left out.
unfoldable pub load : (p : Platform) (f : Floats) → Arrays → Source → Option (Loading f)
load p f arrays s = do
  l1 ← generate_warehouses p f arrays (record { db = empty_database f; source = s })
  l2 ← generate_districts p f arrays l1
  l3 ← generate_customer_and_history p f arrays l2
  l4 ← generate_items p f arrays l3
  generate_stocks p f arrays l4

-- Where the loader puts the rows that the transactions ask for.
pub record Placed (f : Floats) (arrays : Arrays) (db : Database f.Float) : Type 0 where
  pub warehouse_addr :
      (w : ℕ)
      → InRange w num_warehouses
      → base_addr (get_row db.warehouse_table (warehouse_key w)) ≡ arrays.warehouse + 1024 * (w - 1)
  pub district_addr :
      (w d : ℕ)
      → InRange w num_warehouses
      → InRange d districts_per_warehouse
      → base_addr (get_row db.district_table (district_key w d))
        ≡ arrays.district + 1024 * ((w - 1) * 10 + (d - 1))
  pub customer_addr :
      (w d c : ℕ)
      → InRange w num_warehouses
      → InRange d districts_per_warehouse
      → InRange c customers_per_district
      → base_addr (get_row db.customer_table (customer_key w d c))
        ≡ arrays.customer + 2048 * ((w - 1) * 30_000 + (d - 1) * 3000 + (c - 1))
  pub stock_addr :
      (w i : ℕ)
      → InRange w num_warehouses
      → InRange i stock_per_warehouse
      → base_addr (get_row db.stock_table (stock_key w i))
        ≡ arrays.stock + 1024 * ((w - 1) * 100_000 + (i - 1))
  pub item_addr :
      (i : ℕ)
      → InRange i num_items
      → base_addr (get_row db.item_table (item_key i)) ≡ arrays.item + 1024 * (i - 1)

module _ (p : Platform) (f : Floats) (arrays : Arrays) where
  item_key-drawn :
      (i : ℕ) (s : Source) → InRange i num_items → item_row_key (item_row p f i s).0 + 1 ≡ i
  unfolding item_row
  item_key-drawn i s h = omega arith

  stock_key-drawn :
      (w i : ℕ) (s : Source)
      → InRange w num_warehouses
      → InRange i num_items
      → stock_row_key (stock_row p f w i s).0 + 100_001 ≡ w * 100_000 + i
  unfolding stock_row
  stock_key-drawn w i s hw h = omega arith

  generate_items-Progress :
      (l : Loading f)
      → Progress p f arrays num_warehouses tsize_district tsize_customer tsize_history 0 0 l
      → (l' : Loading f) × (generate_items p f arrays l ≡ some l')
        × Progress p f arrays num_warehouses tsize_district tsize_customer tsize_history tsize_item
            0 l'
  unfolding generate_items
  generate_items-Progress l g =
      let (l', done, (k, e, g')) =
        for_ids-invariant (add_item p f arrays)
          (λ i l0.
            (k : ℕ) × (k + 1 ≡ i)
            × Progress p f arrays num_warehouses tsize_district tsize_customer tsize_history k 0 l0)
          1 num_items
          (λ i l0 low high (k, e, g0).
            let key = item_key-drawn i l0.source (low, omega arith) in
            let (l1, done, g1) =
              add_item-Progress p f arrays i num_warehouses tsize_district tsize_customer
                tsize_history k 0 l0 g0 (omega arith) (omega arith) in
            (l1, done, (k + 1, omega arith, g1)))
          l (0, refl, g) in
      (
        l',
        done,
        subst
            (λ n.
              Progress p f arrays num_warehouses tsize_district tsize_customer tsize_history n 0 l')
            (omega arith) g',
      )

  warehouse_stocks-Progress :
      (w k : ℕ) (l : Loading f)
      → InRange w num_warehouses
      → k + 100_000 ≡ w * 100_000
      → Progress p f arrays num_warehouses tsize_district tsize_customer tsize_history tsize_item k
          l
      → (l' : Loading f) × (for_ids (add_stock p f arrays w) 1 num_items l ≡ some l')
        × ((k' : ℕ) × (k' ≡ w * 100_000)
            × Progress p f arrays num_warehouses tsize_district tsize_customer tsize_history
                tsize_item k' l')
  warehouse_stocks-Progress w k l hw hk g =
      let (l', done, (k', e, g')) =
        for_ids-invariant (add_stock p f arrays w)
          (λ i l0.
            (n : ℕ) × (n + 100_001 ≡ w * 100_000 + i)
            × Progress p f arrays num_warehouses tsize_district tsize_customer tsize_history
                tsize_item n l0)
          1 num_items
          (λ i l0 low high (n, e, g0).
            let key = stock_key-drawn w i l0.source hw (low, omega arith) in
            let (l1, done, g1) =
              add_stock-Progress p f arrays w i num_warehouses tsize_district tsize_customer
                tsize_history tsize_item n l0 g0 (omega arith) (omega arith) in
            (l1, done, (n + 1, omega arith, g1)))
          l (k, omega arith, g) in
      (l', done, (k', omega arith, g'))

  generate_stocks-Progress :
      (l : Loading f)
      → Progress p f arrays num_warehouses tsize_district tsize_customer tsize_history tsize_item 0
          l
      → (l' : Loading f) × (generate_stocks p f arrays l ≡ some l')
        × Progress p f arrays num_warehouses tsize_district tsize_customer tsize_history tsize_item
            tsize_stock l'
  unfolding generate_stocks
  generate_stocks-Progress l g =
      let (l', done, (k, e, g')) =
        for_ids-invariant _
          (λ w l0.
            (k : ℕ) × (k + 100_000 ≡ w * 100_000)
            × Progress p f arrays num_warehouses tsize_district tsize_customer tsize_history
                tsize_item k l0)
          1 num_warehouses
          (λ w l0 low high (k, e, g0).
            let (l1, done, (k', e', g1)) =
              warehouse_stocks-Progress w k l0 (low, omega arith) e g0 in
            (l1, done, (k', omega arith, g1)))
          l (0, refl, g) in
      (
        l',
        done,
        subst
            (λ n.
              Progress p f arrays num_warehouses tsize_district tsize_customer tsize_history
                tsize_item n l')
            (omega arith) g',
      )

  -- The calls of `main` up to the orders throw nothing and place every row; the tables of the orders are
  -- as they were made.
  pub load-Progress :
      (s : Source)
      → (l : Loading f) × (load p f arrays s ≡ some l)
        × Progress p f arrays num_warehouses tsize_district tsize_customer tsize_history tsize_item
            tsize_stock l
  unfolding load new
  load-Progress s =
      let empty : Progress p f arrays 0 0 0 0 0 0 (record { db = empty_database f; source = s }) =
        record {
          warehouse_cnt = refl;
          warehouse_fill = new-IsFilled tsize_warehouse _ _;
          district_cnt = refl;
          district_fill = new-IsFilled tsize_district _ _;
          customer_cnt = refl;
          customer_fill = new-IsFilled tsize_customer _ _;
          history_cnt = refl;
          history_fill = new-IsFilled tsize_history _ _;
          item_cnt = refl;
          item_fill = new-IsFilled tsize_item _ _;
          stock_cnt = refl;
          stock_fill = new-IsFilled tsize_stock _ _;
          orders_new = (refl, refl);
        } in
      let (l1, e1, g1) = generate_warehouses-Progress p f arrays _ empty in
      let (l2, e2, g2) = generate_districts-Progress p f arrays l1 g1 in
      let (l3, e3, g3) = generate_customer_and_history-Progress p f arrays l2 g2 in
      let (l4, e4, g4) = generate_items-Progress l3 g3 in
      let (l5, e5, g5) = generate_stocks-Progress l4 g4 in (l5, rw (e1, e2, e3, e4, load) e5, g5)

  Progress-Placed :
      (l : Loading f)
      → Progress p f arrays num_warehouses tsize_district tsize_customer tsize_history tsize_item
          tsize_stock l
      → Placed f arrays l.db
  Progress-Placed l g5 = record {
    warehouse_addr = λ w hw.
        g5.warehouse_fill.placed (warehouse_key w) (omega (arith, g5.warehouse_cnt)) ∙ omega arith;
    district_addr = λ w d hw hd.
        g5.district_fill.placed (district_key w d) (omega (arith, g5.district_cnt)) ∙ omega arith;
    customer_addr = λ w d c hw hd hc.
        let e = customer_key-value w d c hw hd hc in
        g5.customer_fill.placed (customer_key w d c) (omega (arith, g5.customer_cnt)) ∙ omega arith;
    stock_addr = λ w i hw hi.
        g5.stock_fill.placed (stock_key w i) (omega (arith, g5.stock_cnt)) ∙ omega arith;
    item_addr = λ i hi. g5.item_fill.placed (item_key i) (omega (arith, g5.item_cnt)) ∙ omega arith;
  }

  -- From empty tables the loader throws nothing, and every warehouse, district, customer, stock and
  -- item finds, under its hash key, the cown at its own place of its table's array.
  pub load-Placed :
      (s : Source)
      → (l : Loading f) × (load p f arrays s ≡ some l)
        × Placed f arrays l.db
        × (l.db.order_table ≡ new tsize_order)
        × (l.db.order_line_table ≡ new tsize_order_line)
  load-Placed s =
      let (l, e, g) = load-Progress s in (l, e, Progress-Placed l g, g.orders_new.0, g.orders_new.1)
