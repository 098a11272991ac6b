-- ===== src/Tpcc/Entries.antt =====
-- The rows of app/tpcc/entries.hpp and their hash keys.
--
-- A text field is the list of its bytes; the constant `magic` of two of the rows is left out. The type of floating point numbers is a parameter. The
-- static `hash_key` of a row is named after the table; the member function, where its operands have
-- other widths, after the row. An argument of the static functions is a `uint32_t`.
use doradd_storage.Base.{ℕ, List, ◌%◌, u32_mod, add32, sub32, mul32, add64, sub64, mul64}
use doradd_storage.Tpcc.{
  districts_per_warehouse, customers_per_district, orders_per_district, stock_per_warehouse,
}

pub record Warehouse : Type 0 where
  pub w_id : ℕ
  pub w_name : List ℕ
  pub w_street_1 : List ℕ
  pub w_street_2 : List ℕ
  pub w_city : List ℕ
  pub w_tax : ℕ
  pub w_ytd : ℕ
  pub w_state : List ℕ
  pub w_zip : List ℕ

abbrev pub warehouse_key : ℕ → ℕ
warehouse_key wid = sub32 wid 1

pub record District (Float : Type 0) : Type 0 where
  pub d_id : ℕ
  pub w_id : ℕ
  pub d_name : List ℕ
  pub d_street_1 : List ℕ
  pub d_street_2 : List ℕ
  pub d_city : List ℕ
  pub d_state : List ℕ
  pub d_zip : List ℕ
  pub d_tax : Float
  pub d_ytd : ℕ
  pub d_next_o_id : ℕ

abbrev pub district_key : ℕ → ℕ → ℕ
district_key wid did = add32 (mul32 (sub32 wid 1) districts_per_warehouse) (sub32 did 1)

pub record Item (Float : Type 0) : Type 0 where
  pub i_id : ℕ
  pub i_name : List ℕ
  pub i_price : Float
  pub i_data : List ℕ
  pub i_im_id : ℕ

abbrev pub item_key : ℕ → ℕ
item_key iid = sub32 iid 1

abbrev pub item_row_key : {Float : Type 0} → Item Float → ℕ
item_row_key i = sub64 i.i_id 1

pub record Customer (Float : Type 0) : Type 0 where
  pub c_id : ℕ
  pub c_d_id : ℕ
  pub c_w_id : ℕ
  pub c_first : List ℕ
  pub c_last : List ℕ
  pub c_street_1 : List ℕ
  pub c_street_2 : List ℕ
  pub c_city : List ℕ
  pub c_phone : List ℕ
  pub c_state : List ℕ
  pub c_credit : List ℕ
  pub c_middle : List ℕ
  pub c_zip : List ℕ
  pub c_since : ℕ
  pub c_credit_lim : ℕ
  pub c_discount : ℕ
  pub c_balance : Float
  pub c_ytd_payment : ℕ
  pub c_payment_cnt : ℕ
  pub c_delivery_cnt : ℕ
  pub c_data : List ℕ

abbrev pub customer_key : ℕ → ℕ → ℕ → ℕ
customer_key wid did cid =
    add32
      (add32 (mul32 (mul32 (sub32 wid 1) districts_per_warehouse) customers_per_district)
        (mul32 (sub32 did 1) customers_per_district))
      (sub32 cid 1)

pub record Order : Type 0 where
  pub o_id : ℕ
  pub o_d_id : ℕ
  pub o_w_id : ℕ
  pub o_c_id : ℕ
  pub o_entry_d : ℕ
  pub o_carrier_id : ℕ
  pub o_ol_cnt : ℕ
  pub o_all_local : ℕ

-- The slot of a district's first order: 32 bits up to the factor that is a `uint64_t`.
abbrev pub order_base : ℕ → ℕ → ℕ
order_base wid did =
    add64 (mul64 (mul32 (sub32 wid 1) districts_per_warehouse) orders_per_district)
      (mul64 (sub32 did 1) orders_per_district)

abbrev pub order_key : ℕ → ℕ → ℕ → ℕ
order_key wid did oid = add64 (order_base wid did) (sub32 oid 1)

abbrev pub order_row_key : Order → ℕ
order_row_key o = add64 (order_base o.o_w_id o.o_d_id) (sub64 o.o_id 1)

pub record OrderLine : Type 0 where
  pub ol_o_id : ℕ
  pub ol_d_id : ℕ
  pub ol_w_id : ℕ
  pub ol_i_id : ℕ
  pub ol_number : ℕ
  pub ol_supply_w_id : ℕ
  pub ol_delivery_d : ℕ
  pub ol_quantity : ℕ
  pub ol_amount : ℕ
  pub ol_dist_info : List ℕ

abbrev pub order_line_key : ℕ → ℕ → ℕ → ℕ → ℕ
order_line_key wid did oid number = add64 (mul64 (order_key wid did oid) 15) (sub32 number 1)

-- `Order::hash_key` takes the order's number as a `uint32_t`.
abbrev pub order_line_row_key : OrderLine → ℕ
order_line_row_key l =
    add64 (mul64 (order_key l.ol_w_id l.ol_d_id (l.ol_o_id % u32_mod)) 15) (sub64 l.ol_number 1)

pub record NewOrder : Type 0 where
  pub no_o_id : ℕ
  pub no_d_id : ℕ
  pub no_w_id : ℕ

abbrev pub new_order_key : ℕ → ℕ → ℕ → ℕ
new_order_key wid did oid = add64 (order_base wid did) (sub32 oid 1)

abbrev pub new_order_row_key : NewOrder → ℕ
new_order_row_key n = new_order_key n.no_w_id n.no_d_id n.no_o_id

pub record Stock : Type 0 where
  pub s_w_id : ℕ
  pub s_i_id : ℕ
  pub s_quantity : ℕ
  pub s_ytd : ℕ
  pub s_order_cnt : ℕ
  pub s_remote_cnt : ℕ
  pub s_dist : List (List ℕ)
  pub s_data : List ℕ

abbrev pub stock_key : ℕ → ℕ → ℕ
stock_key wid iid = add32 (mul32 (sub32 wid 1) stock_per_warehouse) (sub32 iid 1)

abbrev pub stock_row_key : Stock → ℕ
stock_row_key s = add64 (mul32 (sub32 s.s_w_id 1) stock_per_warehouse) (sub64 s.s_i_id 1)

pub record History (Float : Type 0) : Type 0 where
  pub h_c_id : ℕ
  pub h_c_d_id : ℕ
  pub h_c_w_id : ℕ
  pub h_d_id : ℕ
  pub h_w_id : ℕ
  pub h_date : ℕ
  pub h_amount : Float
  pub h_data : List ℕ

abbrev pub history_key : ℕ → ℕ → ℕ → ℕ
history_key = customer_key
