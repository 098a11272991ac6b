-- ===== src/Tpcc/RowTests.antt =====
-- The theorems on the rows of app/tpcc.cc, the keys and the random strings at concrete inputs.
use doradd_storage.Base.{
  ℕ, ◌+◌, ◌*◌, ◌<◌, ◌≡◌, ◌≢◌, refl, List, [], ◌∷◌, Bool, true, false, none, some, arith, length,
  get_or, All,
}
use doradd_storage.Tpcc.{tsize_order, tsize_order_line, tsize_customer}
use doradd_storage.Tpcc.Entries.{
  Warehouse, District, Item, Customer, Stock, OrderLine, customer_key, order_key, order_line_key,
  order_row_key,
}
use doradd_storage.Tables.{put}
use doradd_storage.Tpcc.Rows.{Rows}
use doradd_storage.Tpcc.Rand.{readables, generate_random_string, generate_random_string-readable}
use doradd_storage.Tpcc.Txn.{Behaviour, behaviours, run_behaviours}
use doradd_storage.Tpcc.NewOrder.{new_order_rest, order_of}
use doradd_storage.Tpcc.Orders.{new_order_rest-orders}
use doradd_storage.Tpcc.OrderLines.{put_lines, new_order_rest-lines}
use doradd_storage.Tpcc.Payment.{PaymentOf, payments, payments-add_up}
use doradd_storage.Tpcc.Split.{behaviours-split, add_to_warehouse-commutes}
use doradd_storage.Tpcc.Stock.{update_stocks, update_stocks-InStock, InStock}
use doradd_storage.Tpcc.Keys.{InRange, customer_key_injective, order_line_key_injective}
use doradd_storage.Tpcc.Tests.{floats, order_params, order_txn, source}

abbrev a_warehouse : Warehouse
a_warehouse = record {
  w_id = 1;
  w_name = [];
  w_street_1 = [];
  w_street_2 = [];
  w_city = [];
  w_tax = 0;
  w_ytd = 300_000;
  w_state = [];
  w_zip = [];
}

abbrev a_district : District (ℕ × ℕ)
a_district = record {
  d_id = 3;
  w_id = 1;
  d_name = [];
  d_street_1 = [];
  d_street_2 = [];
  d_city = [];
  d_state = [];
  d_zip = [];
  d_tax = (0, 0);
  d_ytd = 300_000;
  d_next_o_id = 3001;
}

abbrev a_customer : Customer (ℕ × ℕ)
a_customer = record {
  c_id = 7;
  c_d_id = 3;
  c_w_id = 1;
  c_first = [];
  c_last = [];
  c_street_1 = [];
  c_street_2 = [];
  c_city = [];
  c_phone = [];
  c_state = [];
  c_credit = [];
  c_middle = [];
  c_zip = [];
  c_since = 0;
  c_credit_lim = 50_000;
  c_discount = 0;
  c_balance = (0, 10);
  c_ytd_payment = 10;
  c_payment_cnt = 1;
  c_delivery_cnt = 0;
  c_data = [];
}

abbrev a_stock : Stock
a_stock = record {
  s_w_id = 1;
  s_i_id = 10;
  s_quantity = 12;
  s_ytd = 0;
  s_order_cnt = 0;
  s_remote_cnt = 0;
  s_dist = [];
  s_data = [];
}

abbrev an_item : Item (ℕ × ℕ)
an_item = record { i_id = 10; i_name = []; i_price = (3, 0); i_data = []; i_im_id = 1 }

abbrev pub rows : Rows floats
rows = record {
  warehouses = λ a. a_warehouse;
  districts = λ a. a_district;
  customers = λ a. a_customer;
  stocks = λ a. a_stock;
  items = λ a. an_item;
  order_table = record { map = []; cnt = 30_000 };
  new_order_table = record { map = []; cnt = 0 };
  order_line_table = record { map = []; cnt = 300_000 };
  counted = 0;
}

new_order_rest-orders_example :
    let o = order_of floats 0 [] order_params 3001 in
    (r' : Rows floats) × (new_order_rest floats 0 [] order_params 8192 ((1, 2) ∷ (3, 4) ∷ []) rows
      ≡ some r')
    × ((r'.districts 8192).d_next_o_id ≡ 3002)
    × (r'.order_table
        ≡ put (order_row_key o) (record { placed = none; content = o }) rows.order_table)
    × (r'.new_order_table.cnt ≡ 1)
    × (r'.order_line_table.cnt ≡ 300_002)
    × (r'.counted ≡ 1)
new_order_rest-orders_example =
    new_order_rest-orders floats 0 [] order_params 8192 ((1, 2) ∷ (3, 4) ∷ []) rows (omega arith)
      (omega arith) (omega arith) (omega arith)

-- The rows after the new order of two lines.
abbrev after_order : Rows floats
after_order =
    (new_order_rest-orders floats 0 [] order_params 8192 ((1, 2) ∷ (3, 4) ∷ []) rows (omega arith)
      (omega arith) (omega arith) (omega arith)).0

-- Line n of order 3001 of district 3 goes to line n of order 3000 of district 5.
new_order_rest-lines_example :
    (ls : List OrderLine) × (length ls ≡ 2)
    × (after_order.order_line_table
        ≡ put_lines (order_line_key 1 5 3000) 1 ls rows.order_line_table)
    × ((n : ℕ) → InRange n 15 → order_line_key 1 5 3000 n ≢ order_line_key 1 3 3001 n)
new_order_rest-lines_example =
    new_order_rest-lines floats 0 [] order_params 8192 ((1, 2) ∷ (3, 4) ∷ []) rows after_order refl
      (omega arith, omega arith) (omega arith) (omega arith) (omega arith)
      (new_order_rest-orders floats 0 [] order_params 8192 ((1, 2) ∷ (3, 4) ∷ []) rows (omega arith)
        (omega arith) (omega arith) (omega arith)).1

abbrev two_payments : List PaymentOf
two_payments =
    record { w = 4096; d = 8192; c = 77; h_amount = 50 }
    ∷ record { w = 4096; d = 9216; c = 77; h_amount = 25 }
    ∷ []

payments-add_up_example :
    (((payments floats two_payments rows).warehouses 4096).w_ytd ≡ 300_075)
    × (((payments floats two_payments rows).districts 8192).d_ytd ≡ 300_050)
    × (((payments floats two_payments rows).customers 77).c_ytd_payment ≡ 85)
    × (((payments floats two_payments rows).customers 77).c_payment_cnt ≡ 3)
    × ((payments floats two_payments rows).counted ≡ 2)
payments-add_up_example =
    payments-add_up floats two_payments rows 4096 8192 77 (omega arith) (omega arith) (omega arith)
      (omega arith)

split_builds_test :
    run_behaviours floats 0 [] (behaviours true order_txn) rows
    ≡ run_behaviours floats 0 [] (behaviours false order_txn) rows
split_builds_test = behaviours-split floats 0 [] order_txn rows

add_to_warehouse-commutes_example :
    run_behaviours floats 0 []
      (Behaviour.add_to_warehouse 4096 5 ∷ Behaviour.payment_all 4096 8192 77 order_params ∷ [])
      rows
    ≡ run_behaviours floats 0 []
        (Behaviour.payment_all 4096 8192 77 order_params ∷ Behaviour.add_to_warehouse 4096 5 ∷ [])
        rows
add_to_warehouse-commutes_example =
    add_to_warehouse-commutes floats 0 [] 4096 5 (Behaviour.payment_all 4096 8192 77 order_params)
      rows

abbrev two_orders : List (ℕ × Bool)
two_orders = (4, false) ∷ (10, true) ∷ []

update_stocks-InStock_example :
    InStock (update_stocks two_orders a_stock)
    × ((update_stocks two_orders a_stock).s_ytd ≡ 14)
    × ((k : ℕ) × ((update_stocks two_orders a_stock).s_quantity + 14 ≡ 12 + 91 * k))
update_stocks-InStock_example =
    update_stocks-InStock two_orders a_stock (omega arith, omega arith)
      (omega arith, (omega arith, tt)) (omega arith)

customer_keys_test :
    (customer_key 1 3 7 < tsize_customer)
    × (customer_key 1 3 7 ≡ customer_key 1 4 7
        → (◌≡◌ {A = ℕ} 1 1) × (◌≡◌ {A = ℕ} 3 4) × (◌≡◌ {A = ℕ} 7 7))
customer_keys_test =
    customer_key_injective 1 3 7 1 4 7 (omega arith, omega arith) (omega arith, omega arith)
      (omega arith, omega arith) (omega arith, omega arith) (omega arith, omega arith)
      (omega arith, omega arith)

order_line_key_injective_example :
    (order_key 1 3 3001 < tsize_order)
    × (order_line_key 1 3 3001 2 < tsize_order_line)
    × (order_line_key 1 3 3001 2 ≡ order_line_key 1 5 3000 2
        → (◌≡◌ {A = ℕ} 1 1) × (◌≡◌ {A = ℕ} 3 5) × (◌≡◌ {A = ℕ} 3001 3000) × (◌≡◌ {A = ℕ} 2 2))
order_line_key_injective_example =
    order_line_key_injective 1 3 3001 2 1 5 3000 2 (omega arith, omega arith)
      (omega arith, omega arith) (omega arith, omega arith) (omega arith, omega arith)
      (omega arith, omega arith) (omega arith, omega arith) (omega arith, omega arith)
      (omega arith, omega arith)

readable_string_test :
    (length (generate_random_string 6 source).0 ≡ 6)
    × All (λ c. (i : ℕ) × (i < 64) × (c ≡ get_or readables i 0)) (generate_random_string 6 source).0
readable_string_test = generate_random_string-readable 6 source
