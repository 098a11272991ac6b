-- ===== src/Tpcc/AllLoaded.antt =====
-- `main` of app/tpcc.cc with all the loops of the loader: it throws nothing, and afterwards every id
-- finds its row.
use doradd_storage.Base.{ℕ, ◌+◌, ◌*◌, ◌≡◌, ◌>>=◌, refl, sym, List, Option, some, arith, subst}
use doradd_storage.Tables.{put, for_ids, new}
use doradd_storage.Tables.Filled.{place-put, for_ids-invariant, new-empty}
use doradd_storage.Tpcc.{
  num_warehouses, districts_per_warehouse, customers_per_district, initial_orders_per_district,
  tsize_order, tsize_order_line,
}
use doradd_storage.Tpcc.Entries.{Order, OrderLine, order_key}
use doradd_storage.Tpcc.Keys.{InRange}
use doradd_storage.Tpcc.Rows.{Floats}
use doradd_storage.Tpcc.Rand.{Platform, Source, make_permutation}
use doradd_storage.Tpcc.Load.{Arrays, Loading}
use doradd_storage.Tpcc.LoadOrders.{
  order_row, add_order_line, add_order, add_orders, generate_orders_and_order_lines,
}
use doradd_storage.Tpcc.Loader.{Placed, load, load-Placed}
use doradd_storage.Tpcc.StoredOrders.{IsInitial, Stored, Stored-order, OrderStored}
use doradd_storage.Tpcc.LoadedOrders.{
  order_row-drawn, order_row_key-value, Level, Opened, Placed-orders, add_order_line-Opened,
}

module _ (p : Platform) (f : Floats) (arrays : Arrays) where
  add_order-Level :
      (junk : ℕ) (customer_ids : List ℕ) (w d o n : ℕ) (l : Loading f)
      → IsInitial w d o
      → w * 30_000 + d * 3000 + o ≡ n + 33_001
      → Level p f arrays n 0 l
      → (l' : Loading f) × (add_order p f arrays junk customer_ids w d o l ≡ some l')
        × Level p f arrays (n + 1) 0 l'
  unfolding add_order
  add_order-Level junk customer_ids w d o n l h here g =
      let drawn = order_row p f junk customer_ids w d o l.source in
      let (ids, few, many) = order_row-drawn p f junk customer_ids w d o l.source in
      let (l1, done, opened) =
        for_ids-invariant (add_order_line p f arrays drawn.0)
          (λ i l0. Opened p f arrays w d o n i l0) 1 drawn.0.o_ol_cnt
          (λ i l0 low high g0.
            add_order_line-Opened p f arrays drawn.0 w d o n i l0 ids h here (low, omega arith) g0)
          (record l { source = drawn.1 })
          (record {
            extra = 0;
            level = record { stored = g.stored; placed = g.placed };
            made = refl;
            lines = λ m low high. absurd (omega arith);
          }) in
      let s = opened.level.stored in
      let key = order_row_key-value drawn.0 w d o ids h in
      let done' =
        place-put tsize_order arrays.order 1024 (order_key w d o) drawn.0 l1.db.order_table
          (omega (arith, s.order_cnt)) in
      (
        record l1 {
          db = record l1.db {
            order_table =
                put (order_key w d o)
                  (record {
                    placed = some (arrays.order + 1024 * order_key w d o);
                    content = drawn.0;
                  })
                  l1.db.order_table;
          };
        },
        rw (done, key, done', add_order) refl,
        record {
          stored =
              Stored-order arrays n opened.extra l1.db.order_table l1.db.order_line_table drawn.0 w
                d o s h here ids (few, many) (omega (arith, opened.made))
                (λ m hm. opened.lines m hm.0 (omega arith));
          placed = Placed-orders p f arrays l1.db _ _ opened.level.placed;
        },
      )

  -- The orders of one district.
  add_orders-Level :
      (junk w d n : ℕ) (l : Loading f)
      → InRange w num_warehouses
      → InRange d districts_per_warehouse
      → w * 30_000 + d * 3000 ≡ n + 33_000
      → Level p f arrays n 0 l
      → (l' : Loading f) × (add_orders p f arrays junk w d l ≡ some l')
        × ((n' : ℕ) × (n' ≡ n + 3000) × Level p f arrays n' 0 l')
  unfolding add_orders
  add_orders-Level junk w d n l hw hd here g =
      let drawn = make_permutation p 1 (customers_per_district + 1) l.source in
      let (l', done, (n', e, g')) =
        for_ids-invariant (add_order p f arrays junk drawn.0 w d)
          (λ o l0. (k : ℕ) × (k + 33_001 ≡ w * 30_000 + d * 3000 + o) × Level p f arrays k 0 l0) 1
          initial_orders_per_district
          (λ o l0 low high (k, e, g0).
            let (l1, done, g1) =
              add_order-Level junk drawn.0 w d o k l0 (hw, hd, (low, omega arith)) (sym e) g0 in
            (l1, done, (k + 1, omega arith, g1)))
          (record l { source = drawn.1 })
          (n, omega arith, record { stored = g.stored; placed = g.placed }) in
      (l', done, (n', omega arith, g'))

  -- The orders of one warehouse.
  warehouse_orders-Level :
      (junk w n : ℕ) (l : Loading f)
      → InRange w num_warehouses
      → n + 30_000 ≡ w * 30_000
      → Level p f arrays n 0 l
      → (l' : Loading f) × (for_ids (add_orders p f arrays junk w) 1 districts_per_warehouse l
          ≡ some l')
        × ((n' : ℕ) × (n' ≡ w * 30_000) × Level p f arrays n' 0 l')
  warehouse_orders-Level junk w n l hw here g =
      let (l', done, (n', e, g')) =
        for_ids-invariant (add_orders p f arrays junk w)
          (λ d l0. (k : ℕ) × (k + 33_000 ≡ w * 30_000 + d * 3000) × Level p f arrays k 0 l0) 1
          districts_per_warehouse
          (λ d l0 low high (k, e, g0).
            let (l1, done, (k', e', g1)) =
              add_orders-Level junk w d k l0 hw (low, omega arith) (sym e) g0 in
            (l1, done, (k', omega arith, g1)))
          l (n, omega arith, g) in
      (l', done, (n', omega arith, g'))

  generate_orders_and_order_lines-Level :
      (junk : ℕ) (l : Loading f)
      → Level p f arrays 0 0 l
      → (l' : Loading f) × (generate_orders_and_order_lines p f arrays junk l ≡ some l')
        × Level p f arrays 30_000 0 l'
  unfolding generate_orders_and_order_lines
  generate_orders_and_order_lines-Level junk l g =
      let (l', done, (n', e, g')) =
        for_ids-invariant _ (λ w l0. (k : ℕ) × (k + 30_000 ≡ w * 30_000) × Level p f arrays k 0 l0)
          1 num_warehouses
          (λ w l0 low high (k, e, g0).
            let (l1, done, (k', e', g1)) =
              warehouse_orders-Level junk w k l0 (low, omega arith) e g0 in
            (l1, done, (k', omega arith, g1)))
          l (0, refl, g) in
      (l', done, subst (λ n. Level p f arrays n 0 l') (omega arith) g')

-- All the calls of `main`.
unfoldable pub load_all : (p : Platform) (f : Floats) → Arrays → ℕ → Source → Option (Loading f)
load_all p f arrays junk s = do
  l ← load p f arrays s
  generate_orders_and_order_lines p f arrays junk l

-- Tables that are new hold no order.
new-Stored : (arrays : Arrays) → Stored arrays 0 0 (new tsize_order) (new tsize_order_line)
new-Stored arrays =
    let (no_orders, order_slots) = new-empty Order tsize_order in
    let (no_lines, line_slots) = new-empty OrderLine tsize_order_line in
    record {
      order_cnt = no_orders;
      line_cnt = omega (arith, no_lines);
      order_whole = order_slots;
      line_whole = line_slots;
      orders = λ w d o h before. absurd (omega arith);
    }

module _ (p : Platform) (f : Floats) (arrays : Arrays) where
  -- From empty tables the loader throws nothing. Every warehouse, district, customer, stock and item
  -- finds, under its hash key, the cown at its own place of its table's array. Every one of the 3000
  -- orders of each district finds, under its hash key, itself at its own place, with 5 to 15 lines; and
  -- each of these lines finds itself under its own key, overwritten by no other.
  pub load_all-stored :
      (junk : ℕ) (s : Source)
      → (l : Loading f) × (load_all p f arrays junk s ≡ some l)
        × Placed f arrays l.db
        × (l.db.order_table.cnt ≡ 30_000)
        × ((w d o : ℕ)
            → IsInitial w d o
            → OrderStored arrays l.db.order_table l.db.order_line_table w d o)
  unfolding load_all
  load_all-stored junk s =
      let (l, done, placed, no_orders, no_lines) = load-Placed p f arrays s in
      let (l', done', g) =
        generate_orders_and_order_lines-Level p f arrays junk l
          (record { stored = rw (no_orders, no_lines) (new-Stored arrays); placed = placed }) in
      (
        l',
        rw (done, load_all) done',
        g.placed,
        g.stored.order_cnt,
        λ w d o h. g.stored.orders w d o h (omega arith),
      )
