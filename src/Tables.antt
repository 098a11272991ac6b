-- ===== src/Tables.antt =====
-- struct Table of app/tpcc/tables.hpp, which app/chain/tables.hpp declares in the same words, and the
-- loops that fill a table.
pub mod Filled
use doradd_storage.Base.{
  ℕ, zero, suc, ◌*◌, ◌+◌, ◌<◌, ◌≡◌, arith, List, Option, none, some, if◌then◌else◌, ltb, get_or,
  set, replicate,
}

-- The cown of a row: its base address where `make_cown_custom` places it, `none` where `make_cown`
-- takes memory of the runtime.
pub record Cown (T : Type 0) : Type 0 where
  pub placed : Option ℕ
  pub content : T

pub record Table (T : Type 0) : Type 0 where
  pub map : List (Option (Cown T))
  pub cnt : ℕ

unfoldable pub new : {T : Type 0} → ℕ → Table T
new db_size = record { map = replicate db_size none; cnt = 0 }

-- The slot that `get_row_addr` points to: a null `cown_ptr` where no row was inserted.
unfoldable pub get_row : {T : Type 0} → Table T → ℕ → Option (Cown T)
get_row t key = get_or t.map key none

-- The table with the row in the slot of the key, counted once more.
abbrev pub put : {T : Type 0} → ℕ → Cown T → Table T → Table T
put key r t = record { map = set t.map key (some r); cnt = t.cnt + 1 }

-- The test is on the number of rows, the write at the key, which is not tested. The table before the
-- row's number, or `none` where `std::out_of_range` is thrown.
unfoldable pub insert_row : {T : Type 0} → ℕ → ℕ → Cown T → Table T → Option (Table T × ℕ)
insert_row db_size key r t = if ltb t.cnt db_size then some (put key r t, t.cnt) else none

pub insert_row-room :
    {T : Type 0} (db_size key : ℕ) (r : Cown T) (t : Table T)
    → t.cnt < db_size
    → insert_row db_size key r t ≡ some (put key r t, t.cnt)
unfolding insert_row
insert_row-room db_size key r t room = ground arith

-- `get_row_addr(key)->get_base_addr()` of a placed row: 0 for a null pointer.
unfoldable pub base_addr : {T : Type 0} → Option (Cown T) → ℕ
base_addr none = 0
base_addr (some r) = elim r.placed [ none ↦ 0 | some a ↦ a ]

-- `for (id = from; n times; id++)` with a body that may throw.
unfoldable pub for_ids : {S : Type 0} → (ℕ → S → Option S) → ℕ → ℕ → S → Option S
for_ids body from zero s = some s
for_ids body from (suc n) s = elim (body from s) [
  | none ↦ none
  | some s' ↦ for_ids body (from + 1) n s'
]

-- make_cown_custom and insert_row
unfoldable pub place : {T : Type 0} → ℕ → ℕ → ℕ → ℕ → T → Table T → Option (Table T)
place db_size array stride key row t =
    elim (insert_row db_size key (record { placed = some (array + stride * key); content = row })
      t) [ none ↦ none | some (t', _) ↦ some t' ]
