-- ===== src/Tpcc/Database.antt =====
-- class Database of app/tpcc/db.hpp.
use doradd_storage.Tables.{Table}
use doradd_storage.Tpcc.Entries.{
  Warehouse, District, Item, Customer, Order, OrderLine, NewOrder, Stock, History,
}

pub record Database (Float : Type 0) : Type 0 where
  pub warehouse_table : Table Warehouse
  pub district_table : Table (District Float)
  pub customer_table : Table (Customer Float)
  pub order_line_table : Table OrderLine
  pub stock_table : Table Stock
  pub order_table : Table Order
  pub new_order_table : Table NewOrder
  pub item_table : Table (Item Float)
  pub history_table : Table (History Float)
