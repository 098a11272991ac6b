-- ===== src/TxnProfile/Variants.antt =====
-- The three ways of app/txn_profile.cpp to process a transaction are the same function, and it is the
-- lambda of app/ycsb.cc.
use doradd_storage.Base.{
  ℕ, zero, suc, ◌≡◌, refl, sym, ap, ◌∙◌, List, [], ◌∷◌, arith, length, get_or,
}
use mathlib.Core.Path.{fun_ext}
use doradd_storage.Ycsb.{Rows, Locals, txn_row, txn_rows, body}
use doradd_storage.TxnProfile.{
  process_row, process_rows, process_txn, process_each_row, process_txn_closure, unfold_write,
  unfold_read, unfold_block, process_txn_unfold,
}

process_row-txn_row : (idx : ℕ) (s : Locals) → process_row idx s ≡ txn_row idx s
unfolding process_row txn_row
process_row-txn_row idx s = ground arith

process_each_row-txn_row : (row : ℕ) (s : Locals) → process_each_row row s ≡ txn_row row s
unfolding process_each_row txn_row
process_each_row-txn_row row s = refl

unfold_block-txn_row : (row : ℕ) (s : Locals) → unfold_block row s ≡ txn_row row s
unfolding unfold_block unfold_write unfold_read txn_row
unfold_block-txn_row row s = ground arith

each : process_each_row ≡ txn_row
each = fun_ext (λ row. fun_ext (process_each_row-txn_row row))

block : unfold_block ≡ txn_row
block = fun_ext (λ row. fun_ext (unfold_block-txn_row row))

process_rows-txn_rows :
    (indices : List ℕ) (s : Locals) → process_rows indices s ≡ txn_rows indices s
unfolding process_rows txn_rows
process_rows-txn_rows [] s = refl
process_rows-txn_rows (idx ∷ indices) s =
    ap (process_rows indices) (process_row-txn_row idx s)
    ∙ process_rows-txn_rows indices (txn_row idx s)

-- Ten rows one after the other, looked up first.
abbrev ten_rows : (ℕ → Locals → Locals) → List ℕ → Locals → Locals
ten_rows f indices s =
    let row = λ (i : ℕ). get_or indices i 0 in
    f (row 9) (
      f (row 8) (
        f (row 7)
          (f (row 6) (f (row 5) (f (row 4) (f (row 3) (f (row 2) (f (row 1) (f (row 0) s)))))))))

abbrev by_index : ℕ → (ℕ → ℕ) → Locals → Locals
by_index zero row s = s
by_index (suc n) row s = by_index n (λ i. row (suc i)) (txn_row (row 0) s)

by_index-txn_rows :
    (indices : List ℕ) (s : Locals)
    → by_index (length indices) (λ i. get_or indices i 0) s ≡ txn_rows indices s
unfolding txn_rows
by_index-txn_rows [] s = refl
by_index-txn_rows (addr ∷ addrs) s = by_index-txn_rows addrs (txn_row addr s)

ten_rows-rows :
    (f : ℕ → Locals → Locals) (indices : List ℕ) (s : Locals)
    → f ≡ txn_row
    → length indices ≡ 10
    → (ten_rows f indices s).rows ≡ (txn_rows indices s).rows
ten_rows-rows f indices s same ten =
    ap (λ g. (ten_rows g indices s).rows) same
    ∙ ap (λ n. (by_index n (λ i. get_or indices i 0) s).rows) (sym ten)
    ∙ ap (λ (t : Locals). t.rows) (by_index-txn_rows indices s)

-- For a transaction of ten indices, `process_txn` and its two unrolled versions leave the rows that the
-- lambda of the benchmark leaves on those rows with that write set.
pub process_txn-variants :
    (write_set : ℕ) (indices : List ℕ) (rows : Rows)
    → length indices ≡ 10
    → let result = body (record { cowns = indices; ws_cap = write_set }) rows in
      (process_txn write_set indices rows ≡ result)
      × (process_txn_closure write_set indices rows ≡ result)
      × (process_txn_unfold write_set indices rows ≡ result)
unfolding process_txn process_txn_closure process_txn_unfold body
process_txn-variants write_set indices rows ten = (
  ap (λ (s : Locals). s.rows) (process_rows-txn_rows indices start),
  ten_rows-rows process_each_row indices start each ten,
  ten_rows-rows unfold_block indices start block ten,
)
  where
    start : Locals
    start = record { rows = rows; sum = 0; write_set_l = write_set }
