-- ===== src/Tpcc/Tests.antt =====
-- The theorems on app/tpcc.cc and app/tpcc/*.hpp at concrete inputs.
use doradd_storage.Base.{
  ℕ, zero, suc, ◌+◌, ◌-◌, ◌*◌, ◌/◌, ◌%◌, ◌^◌, ◌≤◌, ◌<◌, ◌≡◌, refl, List, [], ◌∷◌, ◌++◌, false, some,
  arith, get_or, take, replicate, ltb, if◌then◌else◌, ◌==◌,
}
use doradd_storage.Tpcc.Rows.{Floats}
use doradd_storage.Tpcc.Rand.{Platform, Source}
use doradd_storage.Tpcc.Load.{Arrays, Loading}
use doradd_storage.Tpcc.Loader.{Placed}
use doradd_storage.Tpcc.StoredOrders.{IsInitial, OrderStored}
use doradd_storage.Tpcc.AllLoaded.{load_all, load_all-stored}
use doradd_storage.Tpcc.Txn.{TpccTransactionMarshalled, Behaviour, behaviours, found_ptrs}
use doradd_storage.Tpcc.Prepared.{IsNewOrder, behaviours-new_order}

-- A number is a credit and a debit.
abbrev pub floats : Floats
floats = record {
  Float = ℕ × ℕ;
  ratio = λ a b. (a / b, 0);
  neg = λ x. (x.1, x.0);
  minus = λ x n. (x.0, x.1 + n);
  times = λ x n. (x.0 - x.1) * n;
}

abbrev bit_or_fuel : ℕ → ℕ → ℕ → ℕ
bit_or_fuel zero x y = 0
bit_or_fuel (suc n) x y = (if x % 2 + y % 2 == 0 then 0 else 1) + 2 * bit_or_fuel n (x / 2) (y / 2)

abbrev half : ℕ → ℕ → ℕ → ℕ
half x low high = if ltb x (2 ^ 52) then low else high

pub half_lower : (x low high : ℕ) → low ≤ high → low ≤ half x low high
half_lower x low high h = ground arith

pub half_upper : (x low high : ℕ) → low ≤ high → half x low high ≤ high
half_upper x low high h = ground arith

abbrev pub platform : Platform
platform = record {
  uniform = half;
  uniform_lower = half_lower;
  uniform_upper = half_upper;
  rand = λ k. k * 37 % 10_007;
  shuffle = λ k xs. xs;
  bit_or = bit_or_fuel 64;
  memcpy = λ size s. take size (s ++ replicate size 0);
}

abbrev pub source : Source
source = record { seed = 12345; calls = 0; tl_hack = 100_000 }

abbrev arrays : Arrays
arrays = record {
  warehouse = 4096;
  district = 8192;
  customer = 65_536;
  history = 100_000_000;
  order = 200_000_000;
  order_line = 300_000_000;
  item = 400_000_000;
  stock = 500_000_000;
}

load_all-stored_example :
    (l : Loading floats) × (load_all platform floats arrays 9 source ≡ some l)
    × Placed floats arrays l.db
    × (l.db.order_table.cnt ≡ 30_000)
    × ((w d o : ℕ)
        → IsInitial w d o
        → OrderStored arrays l.db.order_table l.db.order_line_table w d o)
load_all-stored_example = load_all-stored platform floats arrays 9 source

-- A New Order of two items by customer 7 of district 3.
abbrev pub order_params : List ℕ
order_params =
    1 ∷ 3 ∷ 7 ∷ 2 ∷ 0 ∷ 10 ∷ 11 ∷ replicate 13 1
    ++ 1 ∷ 1 ∷ replicate 13 1
    ++ 4 ∷ 5 ∷ replicate 13 1
    ++ 2 ∷ 0 ∷ 25 ∷ replicate 12 0

abbrev pub order_txn : TpccTransactionMarshalled
order_txn = record { txn_type = 0; params = order_params; cown_ptrs = replicate 33 0 }

abbrev loaded : Loading floats
loaded = (load_all-stored platform floats arrays 9 source).0

abbrev loaded-Placed : Placed floats arrays loaded.db
loaded-Placed = (load_all-stored platform floats arrays 9 source).2

supply_ids_lem :
    (j : ℕ) → j < 2 → (1 ≤ get_or order_params (20 + j) 0) × (get_or order_params (20 + j) 0 ≤ 1)
supply_ids_lem zero h = (omega arith, omega arith)
supply_ids_lem (suc zero) h = (omega arith, omega arith)
supply_ids_lem (suc (suc j)) h = absurd (omega arith)

item_ids_lem :
    (j : ℕ)
    → j < 2
    → (1 ≤ get_or order_params (5 + j) 0) × (get_or order_params (5 + j) 0 ≤ 100_000)
item_ids_lem zero h = (omega arith, omega arith)
item_ids_lem (suc zero) h = (omega arith, omega arith)
item_ids_lem (suc (suc j)) h = absurd (omega arith)

order_txn-IsNewOrder : IsNewOrder floats arrays loaded.db loaded-Placed order_txn
order_txn-IsNewOrder = record {
  kind = refl;
  size = refl;
  warehouse_id = (omega arith, omega arith);
  district_id = (omega arith, omega arith);
  customer_id = (omega arith, omega arith);
  item_number = (omega arith, omega arith);
  supply_ids = supply_ids_lem;
  item_ids = item_ids_lem;
}

behaviours-new_order_example :
    behaviours false (record order_txn { cown_ptrs = found_ptrs floats loaded.db order_txn })
    ≡ Behaviour.new_order 4096
        (8192 + 1024 * 2)
        (65_536 + 2048 * 6006)
        ((500_000_000 + 1024 * 9, 400_000_000 + 1024 * 9)
          ∷ (500_000_000 + 1024 * 10, 400_000_000 + 1024 * 10)
          ∷ [])
        order_params
      ∷ []
behaviours-new_order_example =
    behaviours-new_order floats arrays loaded.db loaded-Placed order_txn order_txn-IsNewOrder
