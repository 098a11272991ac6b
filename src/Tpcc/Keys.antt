-- ===== src/Tpcc/Keys.antt =====
-- The hash keys of app/tpcc/entries.hpp on the ids that the tables hold: no 32-bit operation wraps,
-- each row has a slot of its own, and the slot lies in the table.
use doradd_storage.Base.{ℕ, ◌+◌, ◌*◌, ◌≤◌, ◌<◌, ◌≡◌, arith, u32_mod}
use doradd_storage.Tpcc.{
  num_warehouses, districts_per_warehouse, customers_per_district, orders_per_district,
  tsize_customer, tsize_order, tsize_order_line,
}
use doradd_storage.Tpcc.Entries.{customer_key, order_key, order_line_key}

-- From 1 to `n`.
abbrev pub InRange : ℕ → ℕ → Type 0
InRange i n = (1 ≤ i) × (i ≤ n)

pub customer_key-value :
    (w d c : ℕ)
    → InRange w num_warehouses
    → InRange d districts_per_warehouse
    → InRange c customers_per_district
    → customer_key w d c + 1 + 3000 + 30_000 ≡ w * 30_000 + d * 3000 + c
customer_key-value w d c hw hd hc = omega arith

-- Customers of the tables' ranges have keys inside the table, and two of them with the same key are
-- the same customer.
pub customer_key_injective :
    (w d c w' d' c' : ℕ)
    → InRange w num_warehouses
    → InRange w' num_warehouses
    → InRange d districts_per_warehouse
    → InRange d' districts_per_warehouse
    → InRange c customers_per_district
    → InRange c' customers_per_district
    → (customer_key w d c < tsize_customer)
      × (customer_key w d c ≡ customer_key w' d' c' → (w ≡ w') × (d ≡ d') × (c ≡ c'))
customer_key_injective w d c w' d' c' hw hw' hd hd' hc hc' =
    let e = customer_key-value w d c hw hd hc in
    let e' = customer_key-value w' d' c' hw' hd' hc' in
    (omega arith, λ same. (omega arith, omega arith, omega arith))

pub order_key-value :
    (w d o : ℕ)
    → InRange w num_warehouses
    → InRange d districts_per_warehouse
    → 1 ≤ o
    → o < u32_mod
    → order_key w d o + 1 + 6840 + 68_400 ≡ w * 68_400 + d * 6840 + o
order_key-value w d o hw hd ho fits = omega arith

-- The order of any number that a district can reach, and a line of it from 1 to 15, has a key inside
-- its table, and two lines with the same key are the same line of the same order.
pub order_line_key_injective :
    (w d o n w' d' o' n' : ℕ)
    → InRange w num_warehouses
    → InRange w' num_warehouses
    → InRange d districts_per_warehouse
    → InRange d' districts_per_warehouse
    → InRange o orders_per_district
    → InRange o' orders_per_district
    → InRange n 15
    → InRange n' 15
    → (order_key w d o < tsize_order)
      × (order_line_key w d o n < tsize_order_line)
      × (order_line_key w d o n ≡ order_line_key w' d' o' n'
          → (w ≡ w') × (d ≡ d') × (o ≡ o') × (n ≡ n'))
order_line_key_injective w d o n w' d' o' n' hw hw' hd hd' ho ho' hn hn' =
    let e = order_key-value w d o hw hd (omega arith) (omega arith) in
    let e' = order_key-value w' d' o' hw' hd' (omega arith) (omega arith) in
    let l : order_line_key w d o n + 1 ≡ order_key w d o * 15 + n = omega arith in
    let l' : order_line_key w' d' o' n' + 1 ≡ order_key w' d' o' * 15 + n' = omega arith in
    (
      omega arith,
      omega arith,
      λ same.
          let order : order_key w d o ≡ order_key w' d' o' = omega arith in
          (omega arith, omega arith, omega arith, omega arith),
    )
