-- ===== src/YcsbLog.antt =====
-- app/ycsb/gen-log/generate_ycsb_zipf.cc: the program that writes a log of YCSB transactions.
--
-- `draw k` is what the k-th call of `ZipfianRandom::next` returns, and `shuffled i` the digits as
-- `std::shuffle` leaves them for transaction `i`. A key is drawn again until it can be used: the draws
-- for one key are the fuel, and `none` means that it ran out.
pub mod Keys
pub mod Layout
pub mod File
pub mod Run
pub mod Tests
mod RunTests
use doradd_storage.Base.{
  ℕ, zero, suc, ◌+◌, ◌-◌, ◌*◌, ◌%◌, ◌^◌, List, [], ◌∷◌, ◌++◌, Bool, true, false, ◌&&◌, ◌||◌, Option,
  none, some, if◌then◌else◌, ltb, ◌==◌, length, replicate, contains, bytes_from, ◌>>=◌,
}

abbrev pub row_count : ℕ
row_count = 10_000_000

abbrev pub tx_count : ℕ
tx_count = 1_000_000

abbrev pub row_per_tx : ℕ
row_per_tx = 10

abbrev pub nr_msb_contention_key : ℕ
nr_msb_contention_key = 6

-- `63 - __builtin_clzll(ROW_COUNT)` is 23: 2 ^ 23 is the largest power of two in ROW_COUNT.
abbrev pub nr_lsb : ℕ
nr_lsb = 23 - nr_msb_contention_key

-- `mask + 1`: a number has no bits in the mask when this divides it.
abbrev pub mask_size : ℕ
mask_size = 2 ^ nr_lsb

abbrev pub nr_cont_key : Bool → ℕ
nr_cont_key contention = if contention then 7 else 0

-- What one draw gives as key `i`, or `none` where the code goes back to `again`.
unfoldable pub try_key : Bool → List ℕ → ℕ → Option ℕ
try_key contention keys drawn =
    let key = drawn % row_count in
    if ltb (length keys) (nr_cont_key contention)
    then (let masked = key - key % mask_size in if contains keys masked then none else some masked)
    else if key % mask_size == 0
    then none
    else if contains keys key
    then none
    else some key

-- The key, and the number of the next draw.
unfoldable pub gen_key : ℕ → Bool → (ℕ → ℕ) → List ℕ → ℕ → Option (ℕ × ℕ)
gen_key zero contention draw keys k = none
gen_key (suc fuel) contention draw keys k =
    let again = gen_key fuel contention draw keys (k + 1) in
    elim (try_key contention keys (draw k)) [ none ↦ again | some key ↦ some (key, k + 1) ]

-- The loop of `gen_keys` for `n` more keys.
unfoldable pub keys_from : ℕ → Bool → (ℕ → ℕ) → ℕ → List ℕ → ℕ → Option (List ℕ × ℕ)
keys_from fuel contention draw zero keys k = some (keys, k)
keys_from fuel contention draw (suc n) keys k = do
  (key, k') ← gen_key fuel contention draw keys k
  keys_from fuel contention draw n (keys ++ (key ∷ [])) k'

unfoldable pub gen_keys : ℕ → Bool → (ℕ → ℕ) → ℕ → Option (List ℕ × ℕ)
gen_keys fuel contention draw k = keys_from fuel contention draw row_per_tx [] k

-- `result = (result << 1) | digit`, in 16 bits.
unfoldable pub fold_digits : ℕ → List ℕ → ℕ
fold_digits result [] = result
fold_digits result (digit ∷ digits) = fold_digits ((result * 2 + digit) % 2 ^ 16) digits

unfoldable pub gen_write_set : Bool → List ℕ → ℕ
gen_write_set contention digits = if contention then 2 ^ 10 - 1 else fold_digits 0 digits

abbrev pub padding : ℕ
padding = 86

unfoldable pub write_keys : List ℕ → List ℕ
write_keys [] = []
write_keys (key ∷ keys) = bytes_from key 0 4 ++ write_keys keys

-- The bytes of a transaction; the write set is written as it lies in memory.
unfoldable pub pack : List ℕ → ℕ → List ℕ
pack keys ws = write_keys keys ++ bytes_from ws 0 2 ++ replicate padding 0

unfoldable pub gen_bin_txn : ℕ → Bool → (ℕ → ℕ) → List ℕ → ℕ → Option (List ℕ × ℕ)
gen_bin_txn fuel contention draw digits k = do
  (keys, k') ← gen_keys fuel contention draw k
  some (pack keys (gen_write_set contention digits), k')

-- The loop of `main` for `n` more transactions, from transaction `i` on.
unfoldable pub gen_txns : ℕ → Bool → (ℕ → ℕ) → (ℕ → List ℕ) → ℕ → ℕ → ℕ → Option (List ℕ)
gen_txns fuel contention draw shuffled zero i k = some []
gen_txns fuel contention draw shuffled (suc n) i k = do
  (txn, k') ← gen_bin_txn fuel contention draw (shuffled i) k
  rest ← gen_txns fuel contention draw shuffled n (i + 1) k'
  some (txn ++ rest)

-- The file: the number of transactions, and the transactions.
unfoldable pub gen_log : ℕ → Bool → (ℕ → ℕ) → (ℕ → List ℕ) → Option (List ℕ)
gen_log fuel contention draw shuffled = do
  txns ← gen_txns fuel contention draw shuffled tx_count 0 0
  some (bytes_from tx_count 0 4 ++ txns)
