-- ===== src/Tpcc/Orders.antt =====
-- What the New Order transaction leaves: its order, the next order's number, its lines.
use doradd_storage.Base.{
  ℕ, ◌+◌, ◌≤◌, ◌<◌, ◌≡◌, refl, ap, ◌∙◌, List, [], ◌∷◌, none, some, arith, length, u64_mod,
}
use doradd_storage.Tpcc.{tsize_order, tsize_new_order, tsize_order_line}
use doradd_storage.Tables.{Cown, put, insert_row-room}
use doradd_storage.Tpcc.Entries.{
  Order, OrderLine, order_row_key, order_line_row_key, NewOrder, new_order_row_key,
}
use doradd_storage.Tpcc.Rows.{Floats, Rows}
use doradd_storage.Tpcc.NewOrder.{
  update_stock_row, insert_order_line, update_stock_and_ol, order_line, order_of, new_order_of,
  take_order_id, neworder_end, new_order_rest,
}

module _ (f : Floats) (junk : ℕ) (junk_text : List ℕ) where
  -- What the lines of an order leave as it was.
  record Lined (n : ℕ) (r r' : Rows f) : Type 0 where
    districts : r'.districts ≡ r.districts
    order_table : r'.order_table ≡ r.order_table
    new_order_table : r'.new_order_table ≡ r.new_order_table
    counted : r'.counted ≡ r.counted
    inserted : r'.order_line_table.cnt ≡ r.order_line_table.cnt + n

  insert_order_line-Lined :
      (params : List ℕ) (key index s i : ℕ) (r : Rows f)
      → r.order_line_table.cnt < tsize_order_line
      → (r' : Rows f) × (insert_order_line f junk junk_text params key index i
            (update_stock_row f junk junk_text params index s r)
          ≡ some r')
        × Lined 1 r r'
  unfolding insert_order_line update_stock_row
  insert_order_line-Lined params key index s i r room =
      let stocked = update_stock_row f junk junk_text params index s r in
      let l = order_line f junk junk_text params key index i stocked in
      let row : Cown OrderLine = record { placed = none; content = l } in
      (
        record stocked { order_line_table = put (order_line_row_key l) row r.order_line_table },
        rw
            (
              insert_row-room tsize_order_line (order_line_row_key l) row r.order_line_table room,
              insert_order_line,
            )
            refl,
        record {
          districts = refl;
          order_table = refl;
          new_order_table = refl;
          counted = refl;
          inserted = refl;
        },
      )

  update_stock_and_ol-Lined :
      (params : List ℕ) (key index : ℕ) (lines : List (ℕ × ℕ)) (r : Rows f)
      → r.order_line_table.cnt + length lines ≤ tsize_order_line
      → (r' : Rows f) × (update_stock_and_ol f junk junk_text params key index lines r ≡ some r')
        × Lined (length lines) r r'
  unfolding update_stock_and_ol
  update_stock_and_ol-Lined params key index [] r room = (
    r,
    refl,
    record {
      districts = refl;
      order_table = refl;
      new_order_table = refl;
      counted = refl;
      inserted = omega arith;
    },
  )
  update_stock_and_ol-Lined params key index (l ∷ lines) r room =
      let (r', done, k) = insert_order_line-Lined params key index l.0 l.1 r (omega arith) in
      let (r'', done', k') =
        update_stock_and_ol-Lined params key (index + 1) lines r' (omega (arith, k.inserted)) in
      (
        r'',
        rw (done, update_stock_and_ol) done',
        record {
          districts = k'.districts ∙ k.districts;
          order_table = k'.order_table ∙ k.order_table;
          new_order_table = k'.new_order_table ∙ k.new_order_table;
          counted = k'.counted ∙ k.counted;
          inserted = omega (arith, k.inserted, k'.inserted);
        },
      )

  neworder_end-room :
      (o : Order) (n : NewOrder) (r : Rows f)
      → r.order_table.cnt < tsize_order
      → r.new_order_table.cnt < tsize_new_order
      → neworder_end f junk junk_text o n r
        ≡ some (record r {
          order_table = put (order_row_key o) (record { placed = none; content = o }) r.order_table;
          new_order_table =
              put (new_order_row_key n) (record { placed = none; content = n }) r.new_order_table;
          counted = r.counted + 1;
        })
  unfolding neworder_end
  neworder_end-room o n r ho hn =
      rw
        (
          insert_row-room tsize_order (order_row_key o) (record { placed = none; content = o })
              r.order_table ho,
          insert_row-room tsize_new_order (new_order_row_key n)
              (record { placed = none; content = n }) r.new_order_table hn,
          neworder_end,
        )
        refl

  next_id :
      (d : ℕ) (r : Rows f)
      → (r.districts d).d_next_o_id + 1 < u64_mod
      → ((take_order_id f junk junk_text d r).districts d).d_next_o_id
        ≡ (r.districts d).d_next_o_id + 1
  unfolding take_order_id
  next_id d r h = ground arith

  -- While the tables have room, a New Order transaction does not throw. It gives its order the
  -- district's next number, in the slot of that number, and moves the number on by one; it adds one
  -- order, one new order and a line for each item, and is counted once.
  pub new_order_rest-orders :
      (params : List ℕ) (d : ℕ) (lines : List (ℕ × ℕ)) (r : Rows f)
      → r.order_line_table.cnt + length lines ≤ tsize_order_line
      → r.order_table.cnt < tsize_order
      → r.new_order_table.cnt < tsize_new_order
      → (r.districts d).d_next_o_id + 1 < u64_mod
      → let o = order_of f junk junk_text params (r.districts d).d_next_o_id in
        (r' : Rows f) × (new_order_rest f junk junk_text params d lines r ≡ some r')
        × ((r'.districts d).d_next_o_id ≡ (r.districts d).d_next_o_id + 1)
        × (r'.order_table
            ≡ put (order_row_key o) (record { placed = none; content = o }) r.order_table)
        × (r'.new_order_table.cnt ≡ r.new_order_table.cnt + 1)
        × (r'.order_line_table.cnt ≡ r.order_line_table.cnt + length lines)
        × (r'.counted ≡ r.counted + 1)
  unfolding new_order_rest take_order_id
  new_order_rest-orders params d lines r hl ho hn hd =
      let oid = (r.districts d).d_next_o_id in
      let o = order_of f junk junk_text params oid in
      let n = new_order_of f junk junk_text params oid in
      let taken = take_order_id f junk junk_text d r in
      let (s, done, k) = update_stock_and_ol-Lined params (order_row_key o) 1 lines taken hl in
      let stored = neworder_end-room o n s (rw (k.order_table) ho) (rw (k.new_order_table) hn) in
      (
        record s {
          order_table = put (order_row_key o) (record { placed = none; content = o }) s.order_table;
          new_order_table =
              put (new_order_row_key n) (record { placed = none; content = n }) s.new_order_table;
          counted = s.counted + 1;
        },
        rw (done, new_order_rest) stored,
        rw (k.districts) (next_id d r hd),
        ap (put (order_row_key o) (record { placed = none; content = o })) k.order_table,
        ap (λ t. t.cnt + 1) k.new_order_table,
        k.inserted,
        omega (arith, k.counted),
      )
