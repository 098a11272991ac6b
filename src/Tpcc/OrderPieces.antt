-- ===== src/Tpcc/OrderPieces.antt =====
-- The new order of app/tpcc.cc as a sequence of steps, and the slots that the steps write.
use doradd_storage.Base.{
  ℕ, ◌+◌, ◌-◌, ◌*◌, ◌%◌, ◌≤◌, ◌<◌, ◌≡◌, refl, ap, sym, ◌∙◌, List, [], ◌∷◌, ◌++◌, Option, none, some,
  arith, add64, sub64, mul64, u32_mod, ◌==◌,
}
use doradd_storage.Tables.{Cown, insert_row}
use doradd_storage.Tpcc.{num_warehouses, districts_per_warehouse, orders_per_district}
use doradd_storage.Tpcc.Partial.{bind, bind-ext}
use doradd_storage.Tpcc.Rows.{Floats, Rows}
use doradd_storage.Tpcc.Stock.{update_stock}
use doradd_storage.Tpcc.Keys.{InRange}
use doradd_storage.Tpcc.Entries.{Item, OrderLine, order_row_key, new_order_row_key, order_key}
use doradd_storage.Tpcc.Pieces.{
  Piece, take, stocked, lined, ordered, new_ordered, counting, perform,
}
use doradd_storage.Tpcc.PieceLists.{perform_all, perform_all-append}
use doradd_storage.Tpcc.NewOrder.{
  param, new_order_rest, update_stock_and_ol, insert_order_line, update_stock_row, neworder_end,
  take_order_id, order_line, order_of, new_order_of,
}

-- The slot of a line of the order with the given key.
abbrev pub line_slot : List ℕ → ℕ → ℕ → ℕ
line_slot params key index =
    add64 (mul64 (order_key (param params 0) (param params 1) (key % u32_mod)) 15) (sub64 index 1)

module _ (f : Floats) (junk : ℕ) (junk_text : List ℕ) where
  abbrev pub line_of : List ℕ → ℕ → ℕ → ℕ → (ℕ → Item f.Float) → Cown OrderLine
  line_of params key index i items =
      let qty = param params (35 + (index - 1)) in
      record {
        placed = none;
        content = record {
          ol_o_id = key;
          ol_d_id = param params 1;
          ol_w_id = param params 0;
          ol_i_id = param params (5 + (index - 1));
          ol_number = index;
          ol_supply_w_id = param params (20 + (index - 1));
          ol_delivery_d = junk;
          ol_quantity = qty;
          ol_amount = f.times (items i).i_price qty;
          ol_dist_info = junk_text;
        };
      }

  abbrev pub line_pieces : List ℕ → ℕ → ℕ → List (ℕ × ℕ) → List (Piece f)
  line_pieces params key index [] = []
  line_pieces params key index (l ∷ lines) =
      stocked l.0 (update_stock (param params (35 + (index - 1))) (param params 51 == 1))
      ∷ lined (line_slot params key index) (line_of params key index l.1)
      ∷ line_pieces params key (index + 1) lines

  abbrev pub end_pieces : List ℕ → ℕ → List (Piece f)
  end_pieces params oid =
      let o = order_of f junk junk_text params oid in
      let n = new_order_of f junk junk_text params oid in
      ordered (order_row_key o) (record { placed = none; content = o })
      ∷ new_ordered (new_order_row_key n) (record { placed = none; content = n })
      ∷ counting
      ∷ []

  abbrev pub pieces : List ℕ → ℕ → List (ℕ × ℕ) → ℕ → List (Piece f)
  pieces params d lines oid =
      take d ∷ line_pieces params (order_row_key (order_of f junk junk_text params oid)) 1 lines
      ++ end_pieces params oid

  insert_order_line-piece :
      (params : List ℕ) (key index i : ℕ) (r : Rows f)
      → insert_order_line f junk junk_text params key index i r
        ≡ perform f (lined (line_slot params key index) (line_of params key index i)) r
  unfolding insert_order_line insert_row order_line
  insert_order_line-piece params key index i r = ground arith

  pub elim-bind :
      (x : Option (Rows f)) (u : Rows f → Option (Rows f))
      → (elim x [ none ↦ none | some r ↦ u r ]) ≡ bind x u
  elim-bind none u = refl
  elim-bind (some r) u = refl

  update_stock_and_ol-pieces :
      (params : List ℕ) (key index : ℕ) (lines : List (ℕ × ℕ)) (r : Rows f)
      → update_stock_and_ol f junk junk_text params key index lines r
        ≡ perform_all f (line_pieces params key index lines) r
  unfolding update_stock_and_ol update_stock_row
  update_stock_and_ol-pieces params key index [] r = refl
  update_stock_and_ol-pieces params key index (l ∷ lines) r =
      let r1 = update_stock_row f junk junk_text params index l.0 r in
      elim-bind (insert_order_line f junk junk_text params key index l.1 r1)
        (update_stock_and_ol f junk junk_text params key (index + 1) lines)
      ∙ ap (λ x. bind x (update_stock_and_ol f junk junk_text params key (index + 1) lines))
          (insert_order_line-piece params key index l.1 r1)
      ∙ bind-ext (perform f (lined (line_slot params key index) (line_of params key index l.1)) r1)
          (update_stock_and_ol f junk junk_text params key (index + 1) lines)
          (perform_all f (line_pieces params key (index + 1) lines))
          (λ r' e. update_stock_and_ol-pieces params key (index + 1) lines r')

  neworder_end-pieces :
      (params : List ℕ) (oid : ℕ) (r : Rows f)
      → neworder_end f junk junk_text
          (order_of f junk junk_text params oid)
          (new_order_of f junk junk_text params oid)
          r
        ≡ perform_all f (end_pieces params oid) r
  unfolding neworder_end insert_row
  neworder_end-pieces params oid r = ground arith

  pub new_order_rest-pieces :
      (params : List ℕ) (d : ℕ) (lines : List (ℕ × ℕ)) (r : Rows f)
      → new_order_rest f junk junk_text params d lines r
        ≡ perform_all f (pieces params d lines (r.districts d).d_next_o_id) r
  unfolding new_order_rest take_order_id
  new_order_rest-pieces params d lines r =
      let oid = (r.districts d).d_next_o_id in
      let o = order_of f junk junk_text params oid in
      let n = new_order_of f junk junk_text params oid in
      let taken = take_order_id f junk junk_text d r in
      elim-bind (update_stock_and_ol f junk junk_text params (order_row_key o) 1 lines taken)
        (neworder_end f junk junk_text o n)
      ∙ ap (λ x. bind x (neworder_end f junk junk_text o n))
          (update_stock_and_ol-pieces params (order_row_key o) 1 lines taken)
      ∙ bind-ext (perform_all f (line_pieces params (order_row_key o) 1 lines) taken)
          (neworder_end f junk junk_text o n) (perform_all f (end_pieces params oid))
          (λ r' e. neworder_end-pieces params oid r')
      ∙ sym (
          perform_all-append f (line_pieces params (order_row_key o) 1 lines)
            (end_pieces params oid) taken)

-- The orders that the arithmetic of the hash keys can tell apart: of the warehouse, of an existing
-- district, and not its first.
abbrev pub IsOrderly : List ℕ → ℕ → Type 0
IsOrderly params oid =
    (param params 0 ≡ num_warehouses)
    × InRange (param params 1) districts_per_warehouse
    × (1 < oid)
    × (oid ≤ orders_per_district)

module _ (f : Floats) (junk : ℕ) (junk_text : List ℕ) where
  abbrev pub key_of : List ℕ → ℕ → ℕ
  key_of params oid = order_row_key (order_of f junk junk_text params oid)

  pub key_of-value :
      (params : List ℕ) (oid : ℕ)
      → IsOrderly params oid
      → key_of params oid + 1 + 6840 ≡ param params 1 * 6840 + oid
  unfolding order_of
  key_of-value params oid (hw, hd, low, high) = omega arith

  pub new_key-value :
      (params : List ℕ) (oid : ℕ)
      → IsOrderly params oid
      → new_order_row_key (new_order_of f junk junk_text params oid) + 1 + 6840
        ≡ param params 1 * 6840 + oid
  unfolding new_order_of
  new_key-value params oid (hw, hd, low, high) = omega arith

  pub line_slot-value :
      (params : List ℕ) (oid i : ℕ)
      → IsOrderly params oid
      → InRange i 15
      → line_slot params (key_of params oid) i + 31 + 15 * 13_680
        ≡ 15 * (param params 1 * 13_680 + oid) + i
  line_slot-value params oid i (hw, hd, low, high) hi =
      let key = key_of-value params oid (hw, hd, low, high) in
      let k = key_of params oid in
      let again : order_key (param params 0) (param params 1) (k % u32_mod) + 1 + 6840
          ≡ param params 1 * 6840 + k =
        omega arith in
      omega arith
