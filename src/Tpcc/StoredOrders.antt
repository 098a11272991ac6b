-- ===== src/Tpcc/StoredOrders.antt =====
-- The orders and their lines in the tables of app/tpcc/tables.hpp: what it means that they are stored,
-- and what a further row leaves of them.
use doradd_storage.Base.{
  ℕ, ◌+◌, ◌*◌, ◌≤◌, ◌<◌, ◌≡◌, ◌≢◌, ◌∙◌, some, none, arith, length, length-set, dec_lt,
  get_or-set_self, get_or-set_ne,
}
use doradd_storage.Tables.{Table, Cown, get_row, put}
use doradd_storage.Tpcc.{
  num_warehouses, districts_per_warehouse, initial_orders_per_district, tsize_order,
  tsize_order_line,
}
use doradd_storage.Tpcc.Entries.{Order, OrderLine, order_key, order_line_key}
use doradd_storage.Tpcc.Keys.{InRange, order_key-value, order_line_key_injective}
use doradd_storage.Tpcc.Load.{Arrays}

pub put-same :
    {T : Type 0} (key : ℕ) (r : Cown T) (t : Table T)
    → key < length t.map
    → get_row (put key r t) key ≡ some r
unfolding get_row
put-same key r t room = get_or-set_self t.map key (some r) none room

pub put-other :
    {T : Type 0} (key k : ℕ) (r : Cown T) (t : Table T)
    → key ≢ k
    → get_row (put key r t) k ≡ get_row t k
unfolding get_row
put-other key k r t apart = get_or-set_ne t.map key k (some r) none apart

-- An order that the loader makes.
abbrev pub IsInitial : ℕ → ℕ → ℕ → Type 0
IsInitial w d o =
    InRange w num_warehouses
    × InRange d districts_per_warehouse
    × InRange o initial_orders_per_district

module _ (arrays : Arrays) where
  -- The slot of line `n` of an order holds that line, at its own place of the array.
  pub record LineStored (t : Table OrderLine) (w d o n : ℕ) : Type 0 where
    pub line : OrderLine
    pub found :
        get_row t (order_line_key w d o n)
        ≡ some (record {
          placed = some (arrays.order_line + 1024 * order_line_key w d o n);
          content = line;
        })
    pub ids : (line.ol_w_id ≡ w) × (line.ol_d_id ≡ d) × (line.ol_o_id ≡ o) × (line.ol_number ≡ n)

  -- The slot of an order holds that order, at its own place of the array, and all its lines are stored.
  pub record OrderStored (t : Table Order) (lines : Table OrderLine) (w d o : ℕ) : Type 0 where
    pub order : Order
    pub found :
        get_row t (order_key w d o)
        ≡ some (record { placed = some (arrays.order + 1024 * order_key w d o); content = order })
    pub ids : (order.o_w_id ≡ w) × (order.o_d_id ≡ d) × (order.o_id ≡ o)
    pub lines_few : (5 ≤ order.o_ol_cnt) × (order.o_ol_cnt ≤ 15)
    pub lines_stored : (n : ℕ) → InRange n order.o_ol_cnt → LineStored lines w d o n

  pub LineStored-put :
      (t : Table OrderLine) (key : ℕ) (r : Cown OrderLine) (w d o n : ℕ)
      → LineStored t w d o n
      → key ≢ order_line_key w d o n
      → LineStored (put key r t) w d o n
  LineStored-put t key r w d o n s apart = record {
    line = s.line;
    found = put-other key (order_line_key w d o n) r t apart ∙ s.found;
    ids = s.ids;
  }

  -- The tables with the first `n` orders of the loader, in the order of its loops, and `extra` lines
  -- more.
  pub record Stored (n extra : ℕ) (t : Table Order) (lines : Table OrderLine) : Type 0 where
    pub order_cnt : t.cnt ≡ n
    pub line_cnt : lines.cnt ≤ 15 * n + extra
    pub order_whole : length t.map ≡ tsize_order
    pub line_whole : length lines.map ≡ tsize_order_line
    pub orders :
        (w d o : ℕ)
        → IsInitial w d o
        → w * 30_000 + d * 3000 + o < n + 33_001
        → OrderStored t lines w d o

  -- A line of the next order.
  pub Stored-line :
      (n extra : ℕ) (t : Table Order) (lines : Table OrderLine) (r : Cown OrderLine) (w d o i : ℕ)
      → Stored n extra t lines
      → IsInitial w d o
      → w * 30_000 + d * 3000 + o ≡ n + 33_001
      → InRange i 15
      → Stored n (extra + 1) t (put (order_line_key w d o i) r lines)
  Stored-line n extra t lines r w d o i s (hw, hd, ho) here hi = record {
    order_cnt = s.order_cnt;
    line_cnt = omega (arith, s.line_cnt);
    order_whole = s.order_whole;
    line_whole = length-set lines.map (order_line_key w d o i) (some r) ∙ s.line_whole;
    orders = λ w' d' o' (hw', hd', ho') before.
        let old = s.orders w' d' o' (hw', hd', ho') before in
        record {
          order = old.order;
          found = old.found;
          ids = old.ids;
          lines_few = old.lines_few;
          lines_stored = λ m hm.
              LineStored-put lines (order_line_key w d o i) r w' d' o' m (old.lines_stored m hm)
                (λ same.
                  let few = old.lines_few in
                  let (a, b, differ) =
                    order_line_key_injective w d o i w' d' o' m hw hw' hd hd' (omega arith)
                      (omega arith) hi (omega arith) in
                  let (ew, ed, eo, em) = differ same in omega arith);
        };
  }

  abbrev placed_order : ℕ → Order → Cown Order
  placed_order key order = record { placed = some (arrays.order + 1024 * key); content = order }

  OrderStored-put :
      (t : Table Order) (lines : Table OrderLine) (key : ℕ) (r : Cown Order) (w d o : ℕ)
      → OrderStored t lines w d o
      → key ≢ order_key w d o
      → OrderStored (put key r t) lines w d o
  OrderStored-put t lines key r w d o s apart = record {
    order = s.order;
    found = put-other key (order_key w d o) r t apart ∙ s.found;
    ids = s.ids;
    lines_few = s.lines_few;
    lines_stored = s.lines_stored;
  }

  -- The next order, when its lines are stored.
  pub Stored-order :
      (n extra : ℕ) (t : Table Order) (lines : Table OrderLine) (order : Order) (w d o : ℕ)
      → Stored n extra t lines
      → IsInitial w d o
      → w * 30_000 + d * 3000 + o ≡ n + 33_001
      → (order.o_w_id ≡ w) × (order.o_d_id ≡ d) × (order.o_id ≡ o)
      → (5 ≤ order.o_ol_cnt) × (order.o_ol_cnt ≤ 15)
      → extra ≤ 15
      → ((m : ℕ) → InRange m order.o_ol_cnt → LineStored lines w d o m)
      → Stored (n + 1) 0 (put (order_key w d o) (placed_order (order_key w d o) order) t) lines
  Stored-order n extra t lines order w d o s (hw, hd, ho) here ids few small stored =
      let key = order_key-value w d o hw hd ho.0 (omega arith) in
      record {
        order_cnt = omega (arith, s.order_cnt);
        line_cnt = omega (arith, s.line_cnt);
        order_whole = length-set t.map (order_key w d o) _ ∙ s.order_whole;
        line_whole = s.line_whole;
        orders = λ w' d' o' (hw', hd', ho') before.
            let key' = order_key-value w' d' o' hw' hd' ho'.0 (omega arith) in
            elim (dec_lt (w' * 30_000 + d' * 3000 + o') (n + 33_001)) [
              | yes older ↦
                  OrderStored-put t lines (order_key w d o) _ w' d' o'
                    (s.orders w' d' o' (hw', hd', ho') older) (λ same. omega arith)
              | no newest ↦
                  let ew : w' ≡ w = omega arith in
                  let ed : d' ≡ d = omega arith in
                  let eo : o' ≡ o = omega arith in
                  rw (ew, ed, eo)
                    (record {
                      order = order;
                      found =
                          put-same (order_key w d o) (placed_order (order_key w d o) order) t
                            (omega (arith, s.order_whole));
                      ids = ids;
                      lines_few = few;
                      lines_stored = stored;
                    })
            ];
      }
