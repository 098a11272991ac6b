-- ===== src/Ycsb/Table.antt =====
-- struct Index of app/ycsb/db.hpp: an array of cowns, filled from the front.
use doradd_storage.Base.{
  ℕ, ◌+◌, List, Option, none, some, if◌then◌else◌, ltb, get_or, set, replicate,
}

-- A null `cown_ptr` is the address 0.
pub record Index : Type 0 where
  pub map : List ℕ
  pub cnt : ℕ

unfoldable pub new : ℕ → Index
new db_size = record { map = replicate db_size 0; cnt = 0 }

-- The array is read without a check: a key out of range gives 0 here.
unfoldable pub get_row : Index → ℕ → ℕ
get_row x key = get_or x.map key 0

-- The key of the new row, or `none` where `std::out_of_range` is thrown.
unfoldable pub insert_row : ℕ → ℕ → Index → Option (Index × ℕ)
insert_row db_size r x =
    if ltb x.cnt db_size
    then some (record x { map = set x.map x.cnt r; cnt = x.cnt + 1 }, x.cnt)
    else none
