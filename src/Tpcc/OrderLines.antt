-- ===== src/Tpcc/OrderLines.antt =====
-- Where the New Order transaction of app/tpcc.cc puts the lines of its order.
use doradd_storage.Base.{
  ℕ, suc, ◌+◌, ◌-◌, ◌*◌, ◌≤◌, ◌<◌, ◌≡◌, ◌≢◌, refl, ap, ◌∙◌, List, [], ◌∷◌, none, some, inl, inr,
  arith, length, Option-cases,
}
use doradd_storage.Tpcc.{orders_per_district, num_warehouses}
use doradd_storage.Tables.{Table, put, insert_row}
use doradd_storage.Tpcc.Entries.{
  Order, OrderLine, NewOrder, order_row_key, order_line_key, order_line_row_key,
}
use doradd_storage.Tpcc.Rows.{Floats, Rows}
use doradd_storage.Tpcc.Keys.{InRange}
use doradd_storage.Tpcc.NewOrder.{
  param, update_stock_row, insert_order_line, update_stock_and_ol, order_line, order_of,
  new_order_of, take_order_id, neworder_end, new_order_rest,
}

-- Rows put into the slots `slot n`, `slot (n + 1)`, ..., in order.
abbrev pub put_lines : (ℕ → ℕ) → ℕ → List OrderLine → Table OrderLine → Table OrderLine
put_lines slot n [] t = t
put_lines slot n (l ∷ ls) t =
    put_lines slot (n + 1) ls (put (slot n) (record { placed = none; content = l }) t)

-- The slot of line `n` of order `o - 1` of district `2 d - 1`.
abbrev pub other_slot : ℕ → ℕ → ℕ → ℕ
other_slot d o n = order_line_key num_warehouses (2 * d - 1) (o - 1) n

module _ (f : Floats) (junk : ℕ) (junk_text : List ℕ) where
  order_line-slot :
      (params : List ℕ) (o n i : ℕ) (r : Rows f)
      → param params 0 ≡ num_warehouses
      → InRange (param params 1) 5
      → 1 < o
      → o ≤ orders_per_district
      → InRange n 15
      → order_line_row_key (
          order_line f junk junk_text params
            (order_row_key (order_of f junk junk_text params o))
            n
            i
            r)
        ≡ other_slot (param params 1) o n
  unfolding order_line order_of
  order_line-slot params o n i r hw hd more ho hn =
      let d = param params 1 in let w = param params 0 in omega arith

  insert_order_line-put :
      (params : List ℕ) (key n i slot : ℕ) (r r' : Rows f)
      → order_line_row_key (order_line f junk junk_text params key n i r) ≡ slot
      → insert_order_line f junk junk_text params key n i r ≡ some r'
      → r'.order_line_table
        ≡ put slot
            (record { placed = none; content = order_line f junk junk_text params key n i r })
            r.order_line_table
  unfolding insert_order_line insert_row
  insert_order_line-put params key n i slot r r' at h = ground (arith, at, h)

  update_stock_and_ol-put :
      (params : List ℕ) (o n : ℕ) (lines : List (ℕ × ℕ)) (r r' : Rows f)
      → param params 0 ≡ num_warehouses
      → InRange (param params 1) 5
      → 1 < o
      → o ≤ orders_per_district
      → 1 ≤ n
      → n + length lines ≤ 16
      → update_stock_and_ol f junk junk_text params
          (order_row_key (order_of f junk junk_text params o))
          n
          lines
          r
        ≡ some r'
      → (ls : List OrderLine) × (length ls ≡ length lines)
        × (r'.order_line_table ≡ put_lines (other_slot (param params 1) o) n ls r.order_line_table)
  unfolding update_stock_and_ol update_stock_row
  update_stock_and_ol-put params o n [] r r' hw hd more ho pos few h = ([], refl, ground (arith, h))
  update_stock_and_ol-put params o n (l ∷ lines) r r' hw hd more ho pos few h =
      let key = order_row_key (order_of f junk junk_text params o) in
      let stocked = update_stock_row f junk junk_text params n l.0 r in
      elim (Option-cases (insert_order_line f junk junk_text params key n l.1 stocked)) [
        | inl e ↦ absurd (let h' = (rw (e, update_stock_and_ol) at h) in cc)
        | inr (u, e) ↦
            let h' = (rw (e, update_stock_and_ol) at h) in
            let slot = order_line-slot params o n l.1 stocked hw hd more ho (pos, omega arith) in
            let first = insert_order_line-put params key n l.1 _ stocked u slot e in
            let (ls, count, rest) =
              update_stock_and_ol-put params o (n + 1) lines u r' hw hd more ho (omega arith)
                (omega arith) h' in
            (
              order_line f junk junk_text params key n l.1 stocked ∷ ls,
              ap suc count,
              rest ∙ ap (put_lines (other_slot (param params 1) o) (n + 1) ls) first,
            )
      ]

  neworder_end-lines :
      (o : Order) (n : NewOrder) (r r' : Rows f)
      → neworder_end f junk junk_text o n r ≡ some r'
      → r'.order_line_table ≡ r.order_line_table
  unfolding neworder_end insert_row
  neworder_end-lines o n r r' h = ground (arith, h)

  -- A New Order transaction of district d, one of the first five, of at most 15 lines, that takes the
  -- order number o, more than 1 and at most the size of a district's part of the order table, and does
  -- not throw: the only change to the order lines is that one line for each item is put, line n of the
  -- order in the slot of line n of order o - 1 of district 2 d - 1, which is not the slot of line n of
  -- order o of district d. For INSERT_ORDER_LINE hands on the order's hash key as its number, and that
  -- is hashed once more.
  pub new_order_rest-lines :
      (params : List ℕ) (d : ℕ) (lines : List (ℕ × ℕ)) (r r' : Rows f)
      → param params 0 ≡ num_warehouses
      → InRange (param params 1) 5
      → 1 < (r.districts d).d_next_o_id
      → (r.districts d).d_next_o_id ≤ orders_per_district
      → length lines ≤ 15
      → new_order_rest f junk junk_text params d lines r ≡ some r'
      → let o = (r.districts d).d_next_o_id in
        (ls : List OrderLine) × (length ls ≡ length lines)
        × (r'.order_line_table ≡ put_lines (other_slot (param params 1) o) 1 ls r.order_line_table)
        × ((n : ℕ)
            → InRange n 15
            → other_slot (param params 1) o n ≢ order_line_key num_warehouses (param params 1) o n)
  unfolding new_order_rest take_order_id
  new_order_rest-lines params d lines r r' hw hd more ho few h =
      let o = (r.districts d).d_next_o_id in
      let key = order_row_key (order_of f junk junk_text params o) in
      let taken = take_order_id f junk junk_text d r in
      elim (Option-cases (update_stock_and_ol f junk junk_text params key 1 lines taken)) [
        | inl e ↦ absurd (let h' = (rw (e, new_order_rest) at h) in cc)
        | inr (u, e) ↦
            let h' = (rw (e, new_order_rest) at h) in
            let (ls, count, put) =
              update_stock_and_ol-put params o 1 lines taken u hw hd more ho (omega arith)
                (omega arith) e in
            (
              ls,
              count,
              neworder_end-lines (order_of f junk junk_text params o)
                    (new_order_of f junk junk_text params o) u r' h'
                  ∙ put,
              λ n hn same. let w = param params 1 in omega arith,
            )
      ]
