-- ===== src/YcsbLog/Tests.antt =====
-- The theorems on the log generator at concrete inputs, and a packed transaction.
use doradd_storage.Base.{
  ℕ, zero, suc, ◌+◌, ◌-◌, ◌*◌, ◌%◌, ◌^◌, ◌≤◌, ◌<◌, ◌≡◌, refl, List, [], ◌∷◌, true, false, some,
  arith, length, range_from, replicate, All, read_le,
}
use doradd_storage.Ycsb.{marshalled_size}
use doradd_storage.YcsbLog.{
  tx_count, row_per_tx, pack, gen_keys, gen_write_set, fold_digits, gen_log,
}
use doradd_storage.YcsbLog.Keys.{AreKeys, Reaches, gen_keys-returns}
use doradd_storage.YcsbLog.Layout.{txn_at, txn_at-pack}
use doradd_storage.YcsbLog.File.{IsGenerated, gen_log-returns}

-- A source that draws ten rows only, one after the other.
abbrev pub ten_rows : ℕ → ℕ
ten_rows k = k % 10 * 1_000_000 + 1

pub ten_rows-Reaches : Reaches 10 ten_rows
ten_rows-Reaches = record {
  hot = λ i. i * 1_000_000 + 1;
  hot_row = λ i low. omega arith;
  inside = λ i low. omega arith;
  apart = λ i j a b same. omega arith;
  drawn = λ i k low. ((i + 10 - k % 10) % 10, omega arith, omega arith);
}

abbrev pub digits : List ℕ
digits = 0 ∷ 0 ∷ 1 ∷ 0 ∷ 0 ∷ 0 ∷ 0 ∷ 1 ∷ 0 ∷ 0 ∷ []

two_writes : gen_write_set false digits ≡ 132
unfolding gen_write_set fold_digits
two_writes = refl

gen_keys-returns_example :
    (keys : List ℕ) × (k' : ℕ) × (gen_keys 10 true ten_rows 7 ≡ some (keys, k'))
    × (length keys ≡ row_per_tx)
    × AreKeys keys
gen_keys-returns_example = gen_keys-returns 10 true ten_rows 7 ten_rows-Reaches

last_rows-small : (i n : ℕ) → i + n ≤ 10_000_000 → All (λ key. key < 2 ^ 32) (range_from i n)
last_rows-small i zero h = tt
last_rows-small i (suc n) h = (omega arith, last_rows-small (i + 1) n (omega arith))

txn_at-pack_example :
    txn_at (pack (range_from 9_999_990 10) 132) 0
    ≡ record { indices = range_from 9_999_990 10; write_set = 132; cown_ptrs = replicate 10 0 }
txn_at-pack_example =
    txn_at-pack (range_from 9_999_990 10) 132 refl (last_rows-small 9_999_990 10 (omega arith))
      (omega arith)

gen_log-returns_example :
    (file : List ℕ) × (gen_log 10 false ten_rows (λ i. digits) ≡ some file)
    × (length file ≡ 4 + tx_count * marshalled_size)
    × (read_le file 0 4 ≡ tx_count)
    × ((m : ℕ)
        → m < tx_count
        → IsGenerated (gen_write_set false digits) (txn_at file (4 + m * marshalled_size)))
gen_log-returns_example = gen_log-returns 10 false ten_rows (λ i. digits) ten_rows-Reaches
