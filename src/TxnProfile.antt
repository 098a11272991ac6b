-- ===== src/TxnProfile.antt =====
-- app/txn_profile.cpp: three ways to write the body of a YCSB transaction, over rows in one vector, and
-- the generation of a random transaction. `rows` maps an index of the vector to the bytes of its row.
pub mod Variants
pub mod Draws
mod Tests
use doradd_storage.Base.{
  ℕ, zero, suc, ◌+◌, ◌%◌, ◌/◌, ◌^◌, List, [], ◌∷◌, Option, none, some, if◌then◌else◌, ◌==◌, get_or,
  set, Bool, true, false, ◌||◌,
}
use doradd_storage.Ycsb.{Rows, Locals, write_row, memset, add_payload}

abbrev pub rows_per_tx : ℕ
rows_per_tx = 10

-- The body of the loop of `process_txn`, at index `idx`.
unfoldable pub process_row : ℕ → Locals → Locals
process_row idx s =
    let done =
      if s.write_set_l % 2 == 1
      then record s { rows = write_row idx (memset (s.rows idx) s.sum) s.rows }
      else record s { sum = add_payload (s.rows idx) s.sum } in
    record done { write_set_l = done.write_set_l / 2 }

unfoldable pub process_rows : List ℕ → Locals → Locals
process_rows [] s = s
process_rows (idx ∷ indices) s = process_rows indices (process_row idx s)

unfoldable pub process_txn : ℕ → List ℕ → Rows → Rows
process_txn write_set indices rows =
    (process_rows indices (record { rows = rows; sum = 0; write_set_l = write_set })).rows

-- The lambda `process_each_row` of `process_txn_closure`: the sum is captured, the write set passed by
-- reference.
unfoldable pub process_each_row : ℕ → Locals → Locals
process_each_row row s =
    if s.write_set_l % 2 == 1
    then record s {
      rows = write_row row (memset (s.rows row) s.sum) s.rows;
      write_set_l = s.write_set_l / 2;
    }
    else record s { sum = add_payload (s.rows row) s.sum; write_set_l = s.write_set_l / 2 }

-- The fold over the ten rows, which are looked up before the first is processed.
unfoldable pub process_txn_closure : ℕ → List ℕ → Rows → Rows
process_txn_closure write_set indices rows =
    let row = λ (i : ℕ). get_or indices i 0 in
    let s : Locals = record { rows = rows; sum = 0; write_set_l = write_set } in
    let s0 = process_each_row (row 0) s in
    let s1 = process_each_row (row 1) s0 in
    let s2 = process_each_row (row 2) s1 in
    let s3 = process_each_row (row 3) s2 in
    let s4 = process_each_row (row 4) s3 in
    let s5 = process_each_row (row 5) s4 in
    let s6 = process_each_row (row 6) s5 in
    let s7 = process_each_row (row 7) s6 in
    let s8 = process_each_row (row 8) s7 in (process_each_row (row 9) s8).rows

-- One of the ten blocks of `process_txn_unfold`.
unfoldable pub unfold_write : ℕ → Locals → Locals
unfold_write row s = record s { rows = write_row row (memset (s.rows row) s.sum) s.rows }

unfoldable pub unfold_read : ℕ → Locals → Locals
unfold_read row s = record s { sum = add_payload (s.rows row) s.sum }

unfoldable pub unfold_block : ℕ → Locals → Locals
unfold_block row s =
    let done = if s.write_set_l % 2 == 1 then unfold_write row s else unfold_read row s in
    record done { write_set_l = done.write_set_l / 2 }

unfoldable pub process_txn_unfold : ℕ → List ℕ → Rows → Rows
process_txn_unfold write_set indices rows =
    let row = λ (i : ℕ). get_or indices i 0 in
    let s : Locals = record { rows = rows; sum = 0; write_set_l = write_set } in
    let s0 = unfold_block (row 0) s in
    let s1 = unfold_block (row 1) s0 in
    let s2 = unfold_block (row 2) s1 in
    let s3 = unfold_block (row 3) s2 in
    let s4 = unfold_block (row 4) s3 in
    let s5 = unfold_block (row 5) s4 in
    let s6 = unfold_block (row 6) s5 in
    let s7 = unfold_block (row 7) s6 in
    let s8 = unfold_block (row 8) s7 in (unfold_block (row 9) s8).rows
