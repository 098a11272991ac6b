-- ===== src/Tpcc/LoadOrders.antt =====
-- TPCCGenerator of app/tpcc/generator.hpp: the items, the stocks, and the orders with their lines.
--
-- Where the code tests `randomNumber(0, 100) > 10`, the text drawn first is overwritten. `junk` is what
-- memory holds in the field that no constructor sets.
use doradd_storage.Base.{
  ℕ, zero, suc, ◌+◌, ◌-◌, ◌%◌, ◌/◌, List, [], ◌∷◌, ◌++◌, Option, none, some, if◌then◌else◌, ltb,
  get_or,
}
use doradd_storage.Tpcc.{
  num_warehouses, districts_per_warehouse, customers_per_district, initial_orders_per_district,
  num_items, tsize_item, tsize_stock, tsize_order, tsize_order_line,
}
use doradd_storage.Tpcc.Entries.{
  Item, Stock, Order, OrderLine, item_row_key, stock_row_key, order_row_key, order_line_row_key,
}
use doradd_storage.Tpcc.Rows.{Floats}
use doradd_storage.Tpcc.Rand.{
  Platform, Source, rand, text_field, string_field, random_number, generate_random_string,
  get_current_time, make_permutation,
}
use doradd_storage.Tpcc.Load.{Arrays, Loading}
use doradd_storage.Tables.{for_ids, place}

-- "ORIGINAL"
abbrev original : List ℕ
original = 79 ∷ 82 ∷ 73 ∷ 71 ∷ 73 ∷ 78 ∷ 65 ∷ 76 ∷ []

module _ (p : Platform) (f : Floats) where
  -- The text of an item or a stock, drawn again or with "ORIGINAL" at a random place.
  unfoldable pub original_data : Source → List ℕ × Source
  original_data s =
      let (chance, s1) = random_number p 0 100 s in
      let (pos, s2) = random_number p 0 25 s1 in
      let (front, s3) = generate_random_string pos s2 in
      let (back, s4) = generate_random_string (50 - pos) s3 in
      if ltb 10 chance
      then text_field p 64 26 50 s1
      else (p.memcpy 64 (front ++ original ++ back), s4)

  unfoldable pub item_row : ℕ → Source → Item f.Float × Source
  item_row i_id s =
      let (name, s1) = text_field p 32 14 24 s in
      let (_, s2) = text_field p 64 26 50 s1 in
      let (price, s3) = rand p s2 in
      let (im_id, s4) = random_number p 1 10_000 s3 in
      let (data_, s5) = original_data s4 in
      (
        record {
          i_id = i_id;
          i_name = name;
          i_price = f.ratio (price % 9900 + 100) 100;
          i_data = data_;
          i_im_id = im_id;
        },
        s5,
      )

  -- s_dist_01 to s_dist_10
  unfoldable pub dist_fields : ℕ → Source → List (List ℕ) × Source
  dist_fields zero s = ([], s)
  dist_fields (suc n) s =
      let (dist, s1) = string_field p 32 24 s in
      let (dists, s2) = dist_fields n s1 in (dist ∷ dists, s2)

  unfoldable pub stock_row : ℕ → ℕ → Source → Stock × Source
  stock_row w_id i_id s =
      let (quantity, s1) = random_number p 10 100 s in
      let (dists, s2) = dist_fields 10 s1 in
      let (_, s3) = text_field p 64 26 50 s2 in
      let (data_, s4) = original_data s3 in
      (
        record {
          s_w_id = w_id;
          s_i_id = i_id;
          s_quantity = quantity;
          s_ytd = 0;
          s_order_cnt = 0;
          s_remote_cnt = 0;
          s_dist = dists;
          s_data = data_;
        },
        s4,
      )

  unfoldable pub order_row : ℕ → List ℕ → ℕ → ℕ → ℕ → Source → Order × Source
  order_row junk customer_ids w_id d_id o_id s =
      let (cnt, s1) = random_number p 5 15 s in
      let (carrier, s2) = random_number p 1 10 s1 in
      let (now, s3) = get_current_time s2 in
      (
        record {
          o_id = o_id;
          o_d_id = d_id;
          o_w_id = w_id;
          o_c_id = get_or customer_ids (o_id - 1) 0;
          o_entry_d = now;
          o_carrier_id = carrier;
          o_ol_cnt = cnt;
          o_all_local = junk;
        },
        s3,
      )

  -- The amount, a quotient by 100.0, is stored in a `uint64_t`.
  unfoldable pub order_line_row : Order → ℕ → Source → OrderLine × Source
  order_line_row o number s =
      let (i_id, s1) = random_number p 1 num_items s in
      let (cents, s2) = random_number p 1 999_999 s1 in
      let late = ltb 2100 o.o_id in
      let (dist, s3) = string_field p 32 24 (if late then s1 else s2) in
      (
        record {
          ol_o_id = o.o_id;
          ol_d_id = o.o_d_id;
          ol_w_id = o.o_w_id;
          ol_i_id = i_id;
          ol_number = number;
          ol_supply_w_id = o.o_w_id;
          ol_delivery_d = if late then o.o_entry_d else 0;
          ol_quantity = 5;
          ol_amount = if late then 0 else cents / 100;
          ol_dist_info = dist;
        },
        s3,
      )

module _ (p : Platform) (f : Floats) (arrays : Arrays) where
  unfoldable pub add_item : ℕ → Loading f → Option (Loading f)
  add_item i_id l =
      let (row, s) = item_row p f i_id l.source in
      elim (place tsize_item arrays.item 1024 (item_row_key row) row l.db.item_table) [
        | none ↦ none
        | some t ↦ some (record { db = record l.db { item_table = t }; source = s })
      ]

  unfoldable pub generate_items : Loading f → Option (Loading f)
  generate_items l = for_ids add_item 1 num_items l

  unfoldable pub add_stock : ℕ → ℕ → Loading f → Option (Loading f)
  add_stock w_id i_id l =
      let (row, s) = stock_row p f w_id i_id l.source in
      elim (place tsize_stock arrays.stock 1024 (stock_row_key row) row l.db.stock_table) [
        | none ↦ none
        | some t ↦ some (record { db = record l.db { stock_table = t }; source = s })
      ]

  unfoldable pub generate_stocks : Loading f → Option (Loading f)
  generate_stocks l = for_ids (λ w_id. for_ids (add_stock w_id) 1 num_items) 1 num_warehouses l

  unfoldable pub add_order_line : Order → ℕ → Loading f → Option (Loading f)
  add_order_line o number l =
      let (row, s) = order_line_row p f o number l.source in
      elim (place tsize_order_line arrays.order_line 1024 (order_line_row_key row) row
        l.db.order_line_table) [
          | none ↦ none
          | some t ↦ some (record { db = record l.db { order_line_table = t }; source = s })
        ]

  -- The lines come before the order that they belong to.
  unfoldable pub add_order : ℕ → List ℕ → ℕ → ℕ → ℕ → Loading f → Option (Loading f)
  add_order junk customer_ids w_id d_id o_id l =
      let (o, s) = order_row p f junk customer_ids w_id d_id o_id l.source in
      elim (for_ids (add_order_line o) 1 o.o_ol_cnt (record l { source = s })) [
        | none ↦ none
        | some l' ↦
            elim (place tsize_order arrays.order 1024 (order_row_key o) o l'.db.order_table) [
              | none ↦ none
              | some t ↦ some (record l' { db = record l'.db { order_table = t } })
            ]
      ]

  unfoldable pub add_orders : ℕ → ℕ → ℕ → Loading f → Option (Loading f)
  add_orders junk w_id d_id l =
      let (customer_ids, s) = make_permutation p 1 (customers_per_district + 1) l.source in
      for_ids (add_order junk customer_ids w_id d_id) 1 initial_orders_per_district
        (record l { source = s })

  unfoldable pub generate_orders_and_order_lines : ℕ → Loading f → Option (Loading f)
  generate_orders_and_order_lines junk l =
      for_ids (λ w_id. for_ids (add_orders junk w_id) 1 districts_per_warehouse) 1 num_warehouses l
