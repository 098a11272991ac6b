-- ===== src/Tpcc/MemoryTests.antt =====
-- The arrays of app/tpcc.cc at concrete rows.
use doradd_storage.Base.{◌+◌, ◌≤◌, ◌≢◌, inl, arith}
use doradd_storage.Tpcc.Memory.{of_customer, of_stock, single_table_size, stride_of, row_addr}
use doradd_storage.Tpcc.MemoryApart.{Apart, single_table-Apart}

tables_differ : of_customer ≢ of_stock
tables_differ e = absurd (cc)

-- The last customer and the first stock.
single_table-Apart_example :
    (0 ≤ row_addr 0 of_customer 29_999)
    × (row_addr 0 of_customer 29_999 + stride_of of_customer ≤ 0 + single_table_size)
    × Apart
        (row_addr 0 of_customer 29_999)
        (stride_of of_customer)
        (row_addr 0 of_stock 0)
        (stride_of of_stock)
single_table-Apart_example =
    single_table-Apart 0 of_customer of_stock 29_999 0 (omega arith) (omega arith)
      (inl tables_differ)
