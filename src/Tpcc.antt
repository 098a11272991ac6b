-- ===== src/Tpcc.antt =====
-- The TPC-C application: app/tpcc.cc, app/tpcc_macros.m4 and app/tpcc/*.hpp. This file has the
-- constants of app/tpcc/constants.hpp.
pub mod Entries
pub mod Keys
pub mod StoredOrders
pub mod Database
pub mod Rows
pub mod Stock
pub mod NewOrder
pub mod Orders
pub mod OrderLines
pub mod Payment
pub mod Txn
pub mod Beside
pub mod Split
pub mod Partial
pub mod Commute
pub mod Pieces
pub mod PieceLists
pub mod OrderPieces
pub mod OrdersApart
pub mod CommuteOrders
pub mod Rand
pub mod FastRandom
pub mod XorShift
pub mod Load
pub mod LoadOrders
pub mod Loaded
pub mod LoadAll
pub mod Loader
pub mod LoadedOrders
pub mod AllLoaded
pub mod Memory
pub mod MemoryApart
pub mod Prepared
mod Tests
mod RowTests
mod RandTests
mod MemoryTests
mod CommuteTests
use doradd_storage.Base.{ℕ, ◌+◌, ◌*◌, ◌/◌}

abbrev pub num_transactions : ℕ
num_transactions = 3200 * 2

abbrev pub max_order_transactions : ℕ
max_order_transactions = (num_transactions / 10) * 6

abbrev pub num_warehouses : ℕ
num_warehouses = 1

abbrev pub num_items : ℕ
num_items = 100_000

abbrev pub stock_per_warehouse : ℕ
stock_per_warehouse = 100_000

abbrev pub districts_per_warehouse : ℕ
districts_per_warehouse = 10

abbrev pub customers_per_district : ℕ
customers_per_district = 3000

abbrev pub initial_orders_per_district : ℕ
initial_orders_per_district = 3000

abbrev pub initial_new_orders_per_district : ℕ
initial_new_orders_per_district = 900

abbrev pub tsize_warehouse : ℕ
tsize_warehouse = num_warehouses

abbrev pub tsize_district : ℕ
tsize_district = num_warehouses * districts_per_warehouse

abbrev pub tsize_customer : ℕ
tsize_customer = num_warehouses * districts_per_warehouse * customers_per_district

abbrev pub tsize_item : ℕ
tsize_item = num_items

abbrev pub tsize_stock : ℕ
tsize_stock = num_warehouses * stock_per_warehouse

-- The initial orders of a district and those that the run adds.
abbrev pub orders_per_district : ℕ
orders_per_district = initial_orders_per_district + max_order_transactions

abbrev pub tsize_order : ℕ
tsize_order = num_warehouses * districts_per_warehouse * orders_per_district * 30

abbrev pub tsize_new_order : ℕ
tsize_new_order =
    num_warehouses
    * districts_per_warehouse
    * (initial_new_orders_per_district + max_order_transactions)
    * 30

abbrev pub tsize_order_line : ℕ
tsize_order_line = tsize_order * 30

abbrev pub tsize_history : ℕ
tsize_history = num_warehouses * districts_per_warehouse * customers_per_district
