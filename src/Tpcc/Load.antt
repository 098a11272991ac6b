-- ===== src/Tpcc/Load.antt =====
-- TPCCGenerator of app/tpcc/generator.hpp: the warehouses, districts, customers and histories.
--
-- A table's array is given by its address; a row's cown lies at a stride of 1024 bytes for each key,
-- 2048 for customers. `none` where an `insert_row` throws.
use doradd_storage.Tables.{for_ids, place}
use doradd_storage.Base.{
  ℕ, ◌-◌, ◌*◌, ◌%◌, ◌/◌, List, [], ◌∷◌, Option, none, some, if◌then◌else◌, ltb, leb,
}
use doradd_storage.Tpcc.{
  num_warehouses, districts_per_warehouse, customers_per_district, tsize_warehouse, tsize_district,
  tsize_customer, tsize_history,
}
use doradd_storage.Tpcc.Database.{Database}
use doradd_storage.Tpcc.Entries.{
  Warehouse, District, Customer, History, warehouse_key, district_key, customer_key, history_key,
}
use doradd_storage.Tpcc.Rows.{Floats}
use doradd_storage.Tpcc.Rand.{
  Platform, Source, rand, text_field, string_field, digits_field, random_number, load_last_name,
  get_customer_last_name, get_current_time,
}

-- The addresses that the constructor is given.
pub record Arrays : Type 0 where
  pub warehouse : ℕ
  pub district : ℕ
  pub customer : ℕ
  pub history : ℕ
  pub order : ℕ
  pub order_line : ℕ
  pub item : ℕ
  pub stock : ℕ

module _ (p : Platform) (f : Floats) where
  -- `(double)(rand() % 2000) / 10000`, below 1, is stored in a `uint32_t`.
  unfoldable pub warehouse_row : ℕ → Source → Warehouse × Source
  warehouse_row w_id s =
      let (tax, s1) = rand p s in
      let (name, s2) = text_field p 16 6 10 s1 in
      let (street_1, s3) = text_field p 32 10 20 s2 in
      let (street_2, s4) = text_field p 32 10 20 s3 in
      let (city, s5) = text_field p 32 10 20 s4 in
      let (state, s6) = string_field p 2 2 s5 in
      let (zip, s7) = string_field p 9 9 s6 in
      (
        record {
          w_id = w_id;
          w_name = name;
          w_street_1 = street_1;
          w_street_2 = street_2;
          w_city = city;
          w_tax = (tax % 2000) / 10000;
          w_ytd = 300_000;
          w_state = state;
          w_zip = zip;
        },
        s7,
      )

  unfoldable pub district_row : ℕ → ℕ → Source → District f.Float × Source
  district_row w_id d_id s =
      let (tax, s1) = rand p s in
      let (name, s2) = text_field p 16 6 10 s1 in
      let (street_1, s3) = text_field p 32 10 20 s2 in
      let (street_2, s4) = text_field p 32 10 20 s3 in
      let (city, s5) = text_field p 32 10 20 s4 in
      let (state, s6) = string_field p 2 2 s5 in
      let (zip, s7) = string_field p 9 9 s6 in
      (
        record {
          d_id = d_id;
          w_id = w_id;
          d_name = name;
          d_street_1 = street_1;
          d_street_2 = street_2;
          d_city = city;
          d_state = state;
          d_zip = zip;
          d_tax = f.ratio (tax % 2000) 100;
          d_ytd = 300_000;
          d_next_o_id = 3001;
        },
        s7,
      )

  unfoldable pub last_name : ℕ → Source → List ℕ × Source
  last_name c_id s =
      if leb c_id 1000
      then (p.memcpy 32 (get_customer_last_name (c_id - 1)), s)
      else let (name, s') = load_last_name p s in (p.memcpy 32 name, s')

  -- `(double)(rand() % 5000) / 10000`, below 1, is stored in a `uint64_t`.
  unfoldable pub customer_row : ℕ → ℕ → ℕ → Source → Customer f.Float × Source
  customer_row w_id d_id c_id s =
      let (first, s1) = text_field p 32 8 16 s in
      let (last, s2) = last_name c_id s1 in
      let (discount, s3) = rand p s2 in
      let (credit, s4) = random_number p 0 99 s3 in
      let (street_1, s5) = text_field p 32 10 20 s4 in
      let (street_2, s6) = text_field p 32 10 20 s5 in
      let (city, s7) = text_field p 32 10 20 s6 in
      let (state, s8) = string_field p 2 3 s7 in
      let (zip, s9) = digits_field p 9 4 s8 in
      let (phone, s10) = digits_field p 32 16 s9 in
      let (data_, s11) = text_field p 500 300 500 s10 in
      let (since, s12) = get_current_time s11 in
      (
        record {
          c_id = c_id;
          c_d_id = d_id;
          c_w_id = w_id;
          c_first = first;
          c_last = last;
          c_street_1 = street_1;
          c_street_2 = street_2;
          c_city = city;
          c_phone = phone;
          c_state = state;
          c_middle = 79 ∷ 69 ∷ [];
          c_credit = if ltb 10 credit then 71 ∷ 67 ∷ [] else 66 ∷ 67 ∷ [];
          c_zip = zip;
          c_since = since;
          c_credit_lim = 50_000;
          c_discount = (discount % 5000) / 10000;
          c_balance = f.neg (f.ratio 10 1);
          c_ytd_payment = 10;
          c_payment_cnt = 1;
          c_delivery_cnt = 0;
          c_data = data_;
        },
        s12,
      )

  unfoldable pub history_row : ℕ → ℕ → ℕ → Source → History f.Float × Source
  history_row w_id d_id c_id s =
      let (data_, s1) = text_field p 32 12 24 s in
      let (date, s2) = get_current_time s1 in
      (
        record {
          h_c_id = c_id;
          h_c_d_id = d_id;
          h_c_w_id = w_id;
          h_d_id = d_id;
          h_w_id = w_id;
          h_date = date;
          h_amount = f.ratio 10 1;
          h_data = data_;
        },
        s2,
      )

pub record Loading (f : Floats) : Type 0 where
  pub db : Database f.Float
  pub source : Source

module _ (p : Platform) (f : Floats) (arrays : Arrays) where
  unfoldable pub add_warehouse : ℕ → Loading f → Option (Loading f)
  add_warehouse w_id l =
      let (row, s) = warehouse_row p f w_id l.source in
      elim (place tsize_warehouse arrays.warehouse 1024 (warehouse_key w_id) row
        l.db.warehouse_table) [
          | none ↦ none
          | some t ↦ some (record { db = record l.db { warehouse_table = t }; source = s })
        ]

  unfoldable pub generate_warehouses : Loading f → Option (Loading f)
  generate_warehouses l = for_ids add_warehouse 1 num_warehouses l

  unfoldable pub add_district : ℕ → ℕ → Loading f → Option (Loading f)
  add_district w_id d_id l =
      let (row, s) = district_row p f w_id d_id l.source in
      elim (place tsize_district arrays.district 1024 (district_key w_id d_id) row
        l.db.district_table) [
          | none ↦ none
          | some t ↦ some (record { db = record l.db { district_table = t }; source = s })
        ]

  unfoldable pub generate_districts : Loading f → Option (Loading f)
  generate_districts l =
      for_ids (λ w_id. for_ids (add_district w_id) 1 districts_per_warehouse) 1 num_warehouses l

  unfoldable pub add_customer : ℕ → ℕ → ℕ → Loading f → Option (Loading f)
  add_customer w_id d_id c_id l =
      let (row, s) = customer_row p f w_id d_id c_id l.source in
      elim (place tsize_customer arrays.customer (2 * 1024) (customer_key w_id d_id c_id) row
        l.db.customer_table) [
          | none ↦ none
          | some t ↦ some (record { db = record l.db { customer_table = t }; source = s })
        ]

  unfoldable pub add_history : ℕ → ℕ → ℕ → Loading f → Option (Loading f)
  add_history w_id d_id c_id l =
      let (row, s) = history_row p f w_id d_id c_id l.source in
      elim (place tsize_history arrays.history 1024 (history_key w_id d_id c_id) row
        l.db.history_table) [
          | none ↦ none
          | some t ↦ some (record { db = record l.db { history_table = t }; source = s })
        ]

  unfoldable pub add_customer_and_history : ℕ → ℕ → ℕ → Loading f → Option (Loading f)
  add_customer_and_history w_id d_id c_id l = elim (add_customer w_id d_id c_id l) [
    | none ↦ none
    | some l' ↦ add_history w_id d_id c_id l'
  ]

  unfoldable pub generate_customer_and_history : Loading f → Option (Loading f)
  generate_customer_and_history l =
      for_ids
        (λ w_id.
          for_ids (λ d_id. for_ids (add_customer_and_history w_id d_id) 1 customers_per_district) 1
            districts_per_warehouse)
        1 num_warehouses l
