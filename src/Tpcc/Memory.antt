-- ===== src/Tpcc/Memory.antt =====
-- The memory that `main` of app/tpcc.cc gives to the tables in the build with SINGLE_TABLE: one
-- allocation, cut into an array for each table.
use doradd_storage.Base.{ℕ, ◌+◌, ◌*◌}
use doradd_storage.Tpcc.{
  tsize_warehouse, tsize_district, tsize_customer, tsize_item, tsize_stock, tsize_order,
  tsize_new_order, tsize_order_line, tsize_history,
}
use doradd_storage.Tpcc.Load.{Arrays}

pub data TableName : Type 0 where
  of_warehouse of_district of_customer of_stock of_item of_history of_order of_order_line :
      TableName
  of_new_order : TableName

-- The arrays, those of the loader and that of the new orders, from the allocated address on.
unfoldable pub single_table : ℕ → Arrays × ℕ
single_table tpcc_arr_addr_warehouse =
    let district = tpcc_arr_addr_warehouse + 1024 * tsize_warehouse in
    let customer = district + 1024 * tsize_district in
    let stock = customer + 2 * 1024 * tsize_customer in
    let item = stock + 1024 * tsize_stock in
    let history = item + 1024 * tsize_item in
    let order = history + 1024 * tsize_history in
    let order_line = order + 1024 * tsize_order in
    let new_order = order_line + 1024 * tsize_order_line in
    (
      record {
        warehouse = tpcc_arr_addr_warehouse;
        district = district;
        customer = customer;
        history = history;
        order = order;
        order_line = order_line;
        item = item;
        stock = stock;
      },
      new_order,
    )

-- How many bytes are allocated.
abbrev pub single_table_size : ℕ
single_table_size =
    1024
    * (tsize_warehouse
        + tsize_district
        + 2 * tsize_customer
        + tsize_stock
        + tsize_item
        + tsize_history
        + tsize_order
        + tsize_order_line
        + tsize_new_order)

abbrev pub array_of : Arrays × ℕ → TableName → ℕ
array_of a of_warehouse = a.0.warehouse
array_of a of_district = a.0.district
array_of a of_customer = a.0.customer
array_of a of_stock = a.0.stock
array_of a of_item = a.0.item
array_of a of_history = a.0.history
array_of a of_order = a.0.order
array_of a of_order_line = a.0.order_line
array_of a of_new_order = a.1

abbrev pub rows_of : TableName → ℕ
rows_of of_warehouse = tsize_warehouse
rows_of of_district = tsize_district
rows_of of_customer = tsize_customer
rows_of of_stock = tsize_stock
rows_of of_item = tsize_item
rows_of of_history = tsize_history
rows_of of_order = tsize_order
rows_of of_order_line = tsize_order_line
rows_of of_new_order = tsize_new_order

-- The bytes that the loader leaves for a row.
abbrev pub stride_of : TableName → ℕ
stride_of of_warehouse = 1024
stride_of of_district = 1024
stride_of of_customer = 2 * 1024
stride_of of_stock = 1024
stride_of of_item = 1024
stride_of of_history = 1024
stride_of of_order = 1024
stride_of of_order_line = 1024
stride_of of_new_order = 1024

abbrev pub row_addr : ℕ → TableName → ℕ → ℕ
row_addr base t key = array_of (single_table base) t + stride_of t * key
