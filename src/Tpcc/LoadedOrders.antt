-- ===== src/Tpcc/LoadedOrders.antt =====
-- What the loop of app/tpcc/generator.hpp that makes the orders leaves in the tables.
use doradd_storage.Base.{ℕ, ◌+◌, ◌*◌, ◌≤◌, ◌<◌, ◌≡◌, ◌≢◌, refl, ◌∙◌, List, some, arith, dec_lt}
use doradd_storage.Tables.{Table, Cown, put}
use doradd_storage.Tables.Filled.{place-put}
use doradd_storage.Tpcc.{tsize_order_line}
use doradd_storage.Tpcc.Entries.{
  Order, OrderLine, order_key, order_line_key, order_row_key, order_line_row_key,
}
use doradd_storage.Tpcc.Keys.{InRange, order_line_key_injective}
use doradd_storage.Tpcc.Rows.{Floats}
use doradd_storage.Tpcc.Rand.{Platform, Source, random_number, next_uniform}
use doradd_storage.Tpcc.Load.{Arrays, Loading}
use doradd_storage.Tpcc.LoadOrders.{order_row, order_line_row, add_order_line}
use doradd_storage.Tpcc.Loader.{Placed}
use doradd_storage.Tpcc.Database.{Database}
use doradd_storage.Tpcc.StoredOrders.{
  LineStored, IsInitial, Stored, Stored-line, LineStored-put, put-same,
}

-- Which order a row is.
abbrev pub IsOrder : Order → ℕ → ℕ → ℕ → Type 0
IsOrder order w d o = (order.o_w_id ≡ w) × (order.o_d_id ≡ d) × (order.o_id ≡ o)

module _ (p : Platform) (f : Floats) where
  pub order_row-drawn :
      (junk : ℕ) (customer_ids : List ℕ) (w d o : ℕ) (s : Source)
      → IsOrder (order_row p f junk customer_ids w d o s).0 w d o
        × (5 ≤ (order_row p f junk customer_ids w d o s).0.o_ol_cnt)
        × ((order_row p f junk customer_ids w d o s).0.o_ol_cnt ≤ 15)
  unfolding order_row random_number
  order_row-drawn junk customer_ids w d o s = (
    (refl, refl, refl),
    p.uniform_lower (next_uniform s).0 5 15 (omega arith),
    p.uniform_upper (next_uniform s).0 5 15 (omega arith),
  )

  order_line_row-drawn :
      (order : Order) (i : ℕ) (s : Source)
      → let line = (order_line_row p f order i s).0 in
        (line.ol_w_id ≡ order.o_w_id)
        × (line.ol_d_id ≡ order.o_d_id)
        × (line.ol_o_id ≡ order.o_id)
        × (line.ol_number ≡ i)
  unfolding order_line_row
  order_line_row-drawn order i s = (refl, refl, refl, refl)

pub order_row_key-value :
    (order : Order) (w d o : ℕ)
    → IsOrder order w d o
    → IsInitial w d o
    → order_row_key order ≡ order_key w d o
order_row_key-value order w d o ids h = omega arith

order_line_row_key-value :
    (line : OrderLine) (w d o n : ℕ)
    → (line.ol_w_id ≡ w) × (line.ol_d_id ≡ d) × (line.ol_o_id ≡ o) × (line.ol_number ≡ n)
    → IsInitial w d o
    → InRange n 15
    → order_line_row_key line ≡ order_line_key w d o n
order_line_row_key-value line w d o n ids h hn = omega arith

other_line :
    (w d o i m : ℕ)
    → IsInitial w d o
    → InRange i 15
    → (1 ≤ m) × (m < i)
    → order_line_key w d o i ≢ order_line_key w d o m
other_line w d o i m (hw, hd, ho) hi hm same =
    let (a, b, differ) =
      order_line_key_injective w d o i w d o m hw hw hd hd (omega arith) (omega arith) hi
        (omega arith) in
    let (ew, ed, eo, e) = differ same in omega arith

order_line_key-bound :
    (w d o i : ℕ) → IsInitial w d o → InRange i 15 → order_line_key w d o i < tsize_order_line
order_line_key-bound w d o i (hw, hd, ho) hi =
    let (a, b, differ) =
      order_line_key_injective w d o i w d o i hw hw hd hd (omega arith) (omega arith) hi hi in
    b

module _ (p : Platform) (f : Floats) (arrays : Arrays) where
  -- The tables with the first `n` orders, beside the rows that the loader has placed before.
  pub record Level (n extra : ℕ) (l : Loading f) : Type 0 where
    pub stored : Stored arrays n extra l.db.order_table l.db.order_line_table
    pub placed : Placed f arrays l.db

  pub Placed-orders :
      (db : Database f.Float) (t : Table Order) (lines : Table OrderLine)
      → Placed f arrays db
      → Placed f arrays (record db { order_table = t; order_line_table = lines })
  Placed-orders db t lines h = record {
    warehouse_addr = h.warehouse_addr;
    district_addr = h.district_addr;
    customer_addr = h.customer_addr;
    stock_addr = h.stock_addr;
    item_addr = h.item_addr;
  }

  -- The next order, of which the lines before `i` are stored.
  pub record Opened (w d o n i : ℕ) (l : Loading f) : Type 0 where
    pub extra : ℕ
    pub level : Level n extra l
    pub made : extra + 1 ≡ i
    pub lines : (m : ℕ) → 1 ≤ m → m < i → LineStored arrays l.db.order_line_table w d o m

  pub add_order_line-Opened :
      (order : Order) (w d o n i : ℕ) (l : Loading f)
      → IsOrder order w d o
      → IsInitial w d o
      → w * 30_000 + d * 3000 + o ≡ n + 33_001
      → InRange i 15
      → Opened w d o n i l
      → (l' : Loading f) × (add_order_line p f arrays order i l ≡ some l')
        × Opened w d o n (i + 1) l'
  unfolding add_order_line
  add_order_line-Opened order w d o n i l ids h here hi g =
      let drawn = order_line_row p f order i l.source in
      let (lw, ld, lo, ln) = order_line_row-drawn p f order i l.source in
      let line_ids : (drawn.0.ol_w_id ≡ w)
          × (drawn.0.ol_d_id ≡ d)
          × (drawn.0.ol_o_id ≡ o)
          × (drawn.0.ol_number ≡ i) =
        (lw ∙ ids.0, ld ∙ ids.1, lo ∙ ids.2, ln) in
      let key = order_line_row_key-value drawn.0 w d o i line_ids h hi in
      let s = g.level.stored in
      let done =
        place-put tsize_order_line arrays.order_line 1024 (order_line_key w d o i) drawn.0
          l.db.order_line_table (omega (arith, s.line_cnt, g.made)) in
      let r : Cown OrderLine = record {
        placed = some (arrays.order_line + 1024 * order_line_key w d o i);
        content = drawn.0;
      } in
      (
        record {
          db = record l.db {
            order_line_table = put (order_line_key w d o i) r l.db.order_line_table;
          };
          source = drawn.1;
        },
        rw (key, done, add_order_line) refl,
        record {
          extra = g.extra + 1;
          level = record {
            stored =
                Stored-line arrays n g.extra l.db.order_table l.db.order_line_table r w d o i s h
                  here hi;
            placed = Placed-orders l.db _ _ g.level.placed;
          };
          made = omega (arith, g.made);
          lines = λ m low high. elim (dec_lt m i) [
            | yes older ↦
                LineStored-put arrays l.db.order_line_table (order_line_key w d o i) r w d o m
                  (g.lines m low older) (other_line w d o i m h hi (omega arith))
            | no newest ↦
                let last : m ≡ i = omega arith in
                rw last (record {
                  line = drawn.0;
                  found =
                      put-same (order_line_key w d o i) r l.db.order_line_table
                        (omega (arith, s.line_whole, order_line_key-bound w d o i h hi));
                  ids = line_ids;
                })
          ];
        },
      )
