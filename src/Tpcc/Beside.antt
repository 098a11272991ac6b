-- ===== src/Tpcc/Beside.antt =====
-- The New Order lambda of app/tpcc.cc beside an operation on rows that it does not touch.
use doradd_storage.Base.{
  ℕ, ◌+◌, ◌≡◌, refl, ap, ap₂, sym, ◌∙◌, inl, inr, List, [], ◌∷◌, Option, none, some, Option-cases,
  arith,
}
use doradd_storage.Tables.{Table, insert_row}
use doradd_storage.Tpcc.{tsize_order, tsize_new_order, tsize_order_line}
use doradd_storage.Tpcc.Rows.{Floats, Rows}
use doradd_storage.Tpcc.Entries.{
  District, Item, Stock, OrderLine, order_row_key, order_line_row_key, new_order_row_key, Order,
  NewOrder,
}
use doradd_storage.Tpcc.NewOrder.{
  new_order_rest, update_stock_and_ol, insert_order_line, update_stock_row, neworder_end,
  take_order_id, order_line, order_of, new_order_of,
}

-- An operation that leaves alone the rows and tables that a new order reads and writes, its district
-- left out, and that does not mind when they change.
pub record IsBeside (f : Floats) (op : Rows f → Rows f) : Type 0 where
  pub same_items : (r : Rows f) → (op r).items ≡ r.items
  pub same_stocks : (r : Rows f) → (op r).stocks ≡ r.stocks
  pub same_lines : (r : Rows f) → (op r).order_line_table ≡ r.order_line_table
  pub same_orders : (r : Rows f) → (op r).order_table ≡ r.order_table
  pub same_new_orders : (r : Rows f) → (op r).new_order_table ≡ r.new_order_table
  pub any_stocks :
      (s : ℕ → Stock) (r : Rows f) → record (op r) { stocks = s } ≡ op (record r { stocks = s })
  pub any_lines :
      (t : Table OrderLine) (r : Rows f)
      → record (op r) { order_line_table = t } ≡ op (record r { order_line_table = t })
  pub any_orders :
      (t : Table Order) (t' : Table NewOrder) (r : Rows f)
      → record (op r) { order_table = t; new_order_table = t'; counted = (op r).counted + 1 }
        ≡ op (record r { order_table = t; new_order_table = t'; counted = r.counted + 1 })

abbrev pub after : {f : Floats} → (Rows f → Rows f) → Option (Rows f) → Option (Rows f)
after op none = none
after op (some r) = some (op r)

module _ (f : Floats) (junk : ℕ) (junk_text : List ℕ) (op : Rows f → Rows f)
    (beside : IsBeside f op) where
  update_stock_row-op :
      (params : List ℕ) (index a : ℕ) (r : Rows f)
      → update_stock_row f junk junk_text params index a (op r)
        ≡ op (update_stock_row f junk junk_text params index a r)
  unfolding update_stock_row
  update_stock_row-op params index a r = rw (beside.same_stocks r) (beside.any_stocks _ r)

  with_lines : Rows f → Option (Table OrderLine × ℕ) → Option (Rows f)
  with_lines r none = none
  with_lines r (some (t, _)) = some (record r { order_line_table = t })

  with_lines-op :
      (r : Rows f) (x : Option (Table OrderLine × ℕ))
      → with_lines (op r) x ≡ after op (with_lines r x)
  unfolding with_lines
  with_lines-op r none = refl
  with_lines-op r (some (t, _)) = ap some (beside.any_lines t r)

  insert_order_line-op :
      (params : List ℕ) (key index i : ℕ) (r : Rows f)
      → insert_order_line f junk junk_text params key index i (op r)
        ≡ after op (insert_order_line f junk junk_text params key index i r)
  unfolding insert_order_line order_line with_lines
  insert_order_line-op params key index i r =
      let line : (ℕ → Item f.Float) → OrderLine =
        λ items. order_line f junk junk_text params key index i (record r { items = items }) in
      let inserted : (ℕ → Item f.Float) → Table OrderLine → Option (Table OrderLine × ℕ) =
        λ items t.
          insert_row tsize_order_line (order_line_row_key (line items))
            (record { placed = none; content = line items }) t in
      ap₂ (λ items t. with_lines (op r) (inserted items t)) (beside.same_items r)
        (beside.same_lines r)
      ∙ with_lines-op r (inserted r.items r.order_line_table)

  update_stock_and_ol-op :
      (params : List ℕ) (key index : ℕ) (lines : List (ℕ × ℕ)) (r : Rows f)
      → update_stock_and_ol f junk junk_text params key index lines (op r)
        ≡ after op (update_stock_and_ol f junk junk_text params key index lines r)
  unfolding update_stock_and_ol
  update_stock_and_ol-op params key index [] r = refl
  update_stock_and_ol-op params key index (l ∷ lines) r =
      let stocked = update_stock_row f junk junk_text params index l.0 r in
      let e = insert_order_line-op params key index l.1 stocked in
      elim (Option-cases (insert_order_line f junk junk_text params key index l.1 stocked)) [
        | inl none_ ↦
            rw (update_stock_row-op params index l.0 r, e, none_, update_stock_and_ol) refl
        | inr (r', some_) ↦
            rw (update_stock_row-op params index l.0 r, e, some_, update_stock_and_ol)
              (update_stock_and_ol-op params key (index + 1) lines r')
      ]

  with_order : Rows f → Option (Table Order × ℕ) → Option (Table NewOrder × ℕ) → Option (Rows f)
  with_order r none o = none
  with_order r (some (t, _)) none = none
  with_order r (some (t, _)) (some (t', _)) =
      some (record r { order_table = t; new_order_table = t'; counted = r.counted + 1 })

  with_order-op :
      (r : Rows f) (x : Option (Table Order × ℕ)) (y : Option (Table NewOrder × ℕ))
      → with_order (op r) x y ≡ after op (with_order r x y)
  unfolding with_order
  with_order-op r none y = refl
  with_order-op r (some (t, _)) none = refl
  with_order-op r (some (t, _)) (some (t', _)) = ap some (beside.any_orders t t' r)

  neworder_end-with :
      (o : Order) (n : NewOrder) (r : Rows f)
      → neworder_end f junk junk_text o n r
        ≡ with_order r
            (insert_row tsize_order
              (order_row_key o)
              (record { placed = none; content = o })
              r.order_table)
            (insert_row tsize_new_order
              (new_order_row_key n)
              (record { placed = none; content = n })
              r.new_order_table)
  unfolding neworder_end with_order
  neworder_end-with o n r = ground arith

  neworder_end-op :
      (o : Order) (n : NewOrder) (r : Rows f)
      → neworder_end f junk junk_text o n (op r) ≡ after op (neworder_end f junk junk_text o n r)
  neworder_end-op o n r =
      neworder_end-with o n (op r)
      ∙ ap₂
          (λ t t'.
            with_order (op r)
              (insert_row tsize_order (order_row_key o) (record { placed = none; content = o }) t)
              (insert_row tsize_new_order (new_order_row_key n)
                (record { placed = none; content = n }) t'))
          (beside.same_orders r) (beside.same_new_orders r)
      ∙ with_order-op r _ _
      ∙ ap (after op) (sym (neworder_end-with o n r))

  ended-op :
      (o : Order) (n : NewOrder) (x : Option (Rows f))
      → (elim (after op x) [ none ↦ none | some r ↦ neworder_end f junk junk_text o n r ])
        ≡ after op (elim x [ none ↦ none | some r ↦ neworder_end f junk junk_text o n r ])
  ended-op o n none = refl
  ended-op o n (some r) = neworder_end-op o n r

  -- The whole lambda, on a district that the operation leaves alone.
  pub new_order_rest-op :
      (params : List ℕ) (d : ℕ) (lines : List (ℕ × ℕ)) (r : Rows f)
      → (op r).districts d ≡ r.districts d
      → take_order_id f junk junk_text d (op r) ≡ op (take_order_id f junk junk_text d r)
      → new_order_rest f junk junk_text params d lines (op r)
        ≡ after op (new_order_rest f junk junk_text params d lines r)
  unfolding new_order_rest
  new_order_rest-op params d lines r same taken_op =
      let rest : District f.Float → Rows f → Option (Rows f) = λ row r0.
        elim (update_stock_and_ol f junk junk_text params
          (order_row_key (order_of f junk junk_text params row.d_next_o_id)) 1 lines r0) [
            | none ↦ none
            | some r' ↦
                neworder_end f junk junk_text (order_of f junk junk_text params row.d_next_o_id)
                  (new_order_of f junk junk_text params row.d_next_o_id) r'
          ] in
      let o = order_of f junk junk_text params (r.districts d).d_next_o_id in
      let n = new_order_of f junk junk_text params (r.districts d).d_next_o_id in
      let stocked =
        update_stock_and_ol f junk junk_text params (order_row_key o) 1 lines
          (take_order_id f junk junk_text d r) in
      ap₂ rest same taken_op
      ∙ ap
          (λ (x : Option (Rows f)). elim x [
            | none ↦ none
            | some r' ↦ neworder_end f junk junk_text o n r'
          ])
          (update_stock_and_ol-op params (order_row_key o) 1 lines
            (take_order_id f junk junk_text d r))
      ∙ ended-op o n stocked
