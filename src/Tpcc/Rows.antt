-- ===== src/Tpcc/Rows.antt =====
-- The rows that the lambdas of app/tpcc.cc reach, and the floating point operations that they use.
use doradd_storage.Base.{ℕ, if◌then◌else◌, ◌==◌, add64}
use doradd_storage.Tables.{Table}
use doradd_storage.Tpcc.Entries.{
  Warehouse, District, Item, Customer, Order, OrderLine, NewOrder, Stock,
}

-- Floating point numbers, as the compiler gives them.
pub record Floats : Type 1 where
  pub Float : Type 0
  -- The quotient of two numbers.
  pub ratio : ℕ → ℕ → Float
  pub neg : Float → Float
  -- `x - n` for an unsigned `n`
  pub minus : Float → ℕ → Float
  -- `x * n` for an unsigned `n`, converted to `uint64_t`
  pub times : Float → ℕ → ℕ

-- The rows by the base addresses of their cowns, the tables that a new order inserts into, and the
-- number of transactions that TxCounter has counted.
pub record Rows (f : Floats) : Type 0 where
  pub warehouses : ℕ → Warehouse
  pub districts : ℕ → District f.Float
  pub customers : ℕ → Customer f.Float
  pub stocks : ℕ → Stock
  pub items : ℕ → Item f.Float
  pub order_table : Table Order
  pub new_order_table : Table NewOrder
  pub order_line_table : Table OrderLine
  pub counted : ℕ

abbrev pub update : {T : Type 0} → ℕ → T → (ℕ → T) → ℕ → T
update addr row rows a = if a == addr then row else rows a

module _ (f : Floats) where
  -- WAREHOUSE_OP
  unfoldable pub warehouse_op : ℕ → ℕ → Rows f → Rows f
  warehouse_op w h_amount r =
      let row = r.warehouses w in
      record r {
        warehouses = update w (record row { w_ytd = add64 row.w_ytd h_amount }) r.warehouses;
      }
