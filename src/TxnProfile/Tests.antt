-- ===== src/TxnProfile/Tests.antt =====
-- The theorems on app/txn_profile.cpp at concrete inputs.
use doradd_storage.Base.{ℕ, zero, suc, ◌+◌, ◌^◌, ◌≡◌, ◌≢◌, refl, some, arith, range_from, replicate}
use doradd_storage.Ycsb.{Rows, body}
use doradd_storage.TxnProfile.{process_txn, process_txn_closure, process_txn_unfold}
use doradd_storage.TxnProfile.Variants.{process_txn-variants}
use doradd_storage.TxnProfile.Draws.{gen_random_write_set, gen_random_write_set-two}

abbrev some_rows : Rows
some_rows i = replicate 900 i

-- Two writes, to the rows 1 and 9.
process_txn-variants_example :
    let result = body (record { cowns = range_from 0 10; ws_cap = 514 }) some_rows in
    (process_txn 514 (range_from 0 10) some_rows ≡ result)
    × (process_txn_closure 514 (range_from 0 10) some_rows ≡ result)
    × (process_txn_unfold 514 (range_from 0 10) some_rows ≡ result)
process_txn-variants_example = process_txn-variants 514 (range_from 0 10) some_rows refl

-- The first two draws are the same, the next two are not.
abbrev some_draws : ℕ → ℕ
some_draws zero = 3
some_draws (suc zero) = 3
some_draws (suc (suc zero)) = 7
some_draws (suc (suc (suc i))) = 2

two_bits :
    (k : ℕ) × (some_draws k ≢ some_draws (k + 1))
    × (gen_random_write_set 5 some_draws ≡ some (2 ^ some_draws k + 2 ^ some_draws (k + 1)))
two_bits = gen_random_write_set-two some_draws 5 1 (omega arith) (λ e. omega (arith, e))
