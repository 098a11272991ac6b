-- ===== src/YcsbLog/File.antt =====
-- The file that `main` of app/ycsb/gen-log/generate_ycsb_zipf.cc writes, as the dispatcher reads it: the
-- count of its first four bytes, and a transaction every 128 bytes.
use mathlib.Core.List.{append_assoc}
use doradd_storage.Base.{
  ℕ, zero, suc, ◌+◌, ◌*◌, ◌%◌, ◌^◌, ◌<◌, ◌≡◌, refl, sym, subst, List, [], ◌∷◌, ◌++◌, Bool, true,
  false, some, arith, length, length-append, replicate, All, bytes_from, read_le,
  read_le-append_left,
}
use doradd_storage.Ycsb.{YcsbTransactionMarshalled, rows_per_tx, marshalled_size}
use doradd_storage.YcsbLog.{
  tx_count, row_count, fold_digits, gen_write_set, pack, gen_bin_txn, gen_txns, gen_log,
}
use doradd_storage.YcsbLog.Keys.{AreKeys, Reaches, gen_keys-returns}
use doradd_storage.YcsbLog.Layout.{txn_at, length-pack, txn_at-pack, txn_at-shift}

-- A transaction as the generator means it: ten different rows of the table of app/ycsb.cc, the write set,
-- and no pointers.
pub record IsGenerated (write_set : ℕ) (txm : YcsbTransactionMarshalled) : Type 0 where
  pub ten : length txm.indices ≡ rows_per_tx
  pub keys : AreKeys txm.indices
  pub same_write_set : txm.write_set ≡ write_set
  pub no_pointers : txm.cown_ptrs ≡ replicate rows_per_tx 0

fold_digits-lt :
    (result : ℕ) (digits : List ℕ) → result < 2 ^ 16 → fold_digits result digits < 2 ^ 16
unfolding fold_digits
fold_digits-lt result [] h = h
fold_digits-lt result (digit ∷ digits) h =
    fold_digits-lt ((result * 2 + digit) % 2 ^ 16) digits (omega arith)

gen_write_set-lt : (contention : Bool) (digits : List ℕ) → gen_write_set contention digits < 2 ^ 16
unfolding gen_write_set
gen_write_set-lt true digits = omega arith
gen_write_set-lt false digits = fold_digits-lt 0 digits (omega arith)

rows-small : (keys : List ℕ) → All (λ key. key < row_count) keys → All (λ key. key < 2 ^ 32) keys
rows-small [] h = tt
rows-small (key ∷ keys) (low, h) = (omega arith, rows-small keys h)

pack-IsGenerated :
    (keys : List ℕ) (ws : ℕ)
    → length keys ≡ rows_per_tx
    → AreKeys keys
    → ws < 2 ^ 16
    → IsGenerated ws (txn_at (pack keys ws) 0)
pack-IsGenerated keys ws ten ok small =
    subst (IsGenerated ws) (sym (txn_at-pack keys ws ten (rows-small keys ok.rows) small))
      (record { ten = ten; keys = ok; same_write_set = refl; no_pointers = refl })

gen_bin_txn-returns :
    (fuel : ℕ) (contention : Bool) (draw : ℕ → ℕ) (digits : List ℕ) (k : ℕ)
    → Reaches fuel draw
    → (bytes : List ℕ) × (k' : ℕ) × (gen_bin_txn fuel contention draw digits k ≡ some (bytes, k'))
      × (length bytes ≡ marshalled_size)
      × IsGenerated (gen_write_set contention digits) (txn_at bytes 0)
unfolding gen_bin_txn
gen_bin_txn-returns fuel contention draw digits k reaches =
    let (keys, k', e, ten, ok) = gen_keys-returns fuel contention draw k reaches in
    let ws = gen_write_set contention digits in
    (
      pack keys ws,
      k',
      rw e refl,
      length-pack keys ws ten,
      pack-IsGenerated keys ws ten ok (gen_write_set-lt contention digits),
    )

-- Transaction `j` stands at `a` in `file`.
abbrev IsAt : Bool → (ℕ → List ℕ) → ℕ → List ℕ → ℕ → Type 0
IsAt contention shuffled j file a =
    IsGenerated (gen_write_set contention (shuffled j)) (txn_at file a)

IsAt-same :
    (contention : Bool) (shuffled : ℕ → List ℕ) (j j' : ℕ) (file file' : List ℕ) (a a' : ℕ)
    → j ≡ j'
    → file ≡ file'
    → a ≡ a'
    → IsAt contention shuffled j file a
    → IsAt contention shuffled j' file' a'
IsAt-same contention shuffled j j' file file' a a' e f g t =
    subst (λ x. IsAt contention shuffled x file' a') e
      (subst (λ x. IsAt contention shuffled j x a') f (subst (IsAt contention shuffled j file) g t))

-- Behind any bytes, transaction `m` of the rest of the loop stands at the `m`-th 128 bytes.
gen_txns-returns :
    (fuel : ℕ) (contention : Bool) (draw : ℕ → ℕ) (shuffled : ℕ → List ℕ) (n i k : ℕ)
    → Reaches fuel draw
    → (bytes : List ℕ) × (gen_txns fuel contention draw shuffled n i k ≡ some bytes)
      × (length bytes ≡ n * marshalled_size)
      × ((before : List ℕ) (m : ℕ)
          → m < n
          → IsAt contention shuffled
              (i + m)
              (before ++ bytes)
              (length before + m * marshalled_size))
unfolding gen_txns
gen_txns-returns fuel contention draw shuffled zero i k reaches =
    ([], refl, refl, λ before m h. absurd (omega arith))
gen_txns-returns fuel contention draw shuffled (suc n) i k reaches =
    let (txn, k', e, size, first) =
      gen_bin_txn-returns fuel contention draw (shuffled i) k reaches in
    let (rest, e', sizes, later) =
      gen_txns-returns fuel contention draw shuffled n (i + 1) k' reaches in
    (
      txn ++ rest,
      rw (e, e') refl,
      omega (arith, length-append txn rest, size, sizes),
      placed txn rest size first later,
    )
  where
    placed :
        (txn rest : List ℕ)
        → length txn ≡ marshalled_size
        → IsAt contention shuffled i txn 0
        → ((before : List ℕ) (m : ℕ)
            → m < n
            → IsAt contention shuffled
                (i + 1 + m)
                (before ++ rest)
                (length before + m * marshalled_size))
        → (before : List ℕ) (m : ℕ) → m < suc n
        → IsAt contention shuffled
            (i + m)
            (before ++ (txn ++ rest))
            (length before + m * marshalled_size)
    placed txn rest size first later before zero h =
        IsAt-same contention shuffled i (i + 0) _ _ (length before)
          (length before + 0 * marshalled_size) (omega arith) refl (omega arith)
          (subst (IsGenerated _) (sym (txn_at-shift before txn rest size)) first)
    placed txn rest size first later before (suc m) h =
        IsAt-same contention shuffled (i + 1 + m) (i + suc m) (before ++ txn ++ rest)
          (before ++ (txn ++ rest)) (length (before ++ txn) + m * marshalled_size)
          (length before + suc m * marshalled_size) (omega arith) (append_assoc before txn rest)
          (omega (arith, length-append before txn, size)) (later (before ++ txn) m (omega arith))

-- If there are ten rows in ten different blocks of 2^17 rows, none at the beginning of its block, and each
-- of the ten is drawn at least once in any `fuel` draws, then the program writes its file: the count,
-- which is TX_COUNT, and at byte 4 + 128 m transaction m, for each m below the count. Read through the
-- struct of app/ycsb.cc, it has ten different rows of that benchmark's table, the write set that was
-- generated for it, and null pointers.
pub gen_log-returns :
    (fuel : ℕ) (contention : Bool) (draw : ℕ → ℕ) (shuffled : ℕ → List ℕ)
    → Reaches fuel draw
    → (file : List ℕ) × (gen_log fuel contention draw shuffled ≡ some file)
      × (length file ≡ 4 + tx_count * marshalled_size)
      × (read_le file 0 4 ≡ tx_count)
      × ((m : ℕ)
          → m < tx_count
          → IsGenerated
              (gen_write_set contention (shuffled m))
              (txn_at file (4 + m * marshalled_size)))
unfolding gen_log
gen_log-returns fuel contention draw shuffled reaches =
    let (txns, e, size, all) =
      gen_txns-returns fuel contention draw shuffled tx_count 0 0 reaches in
    (
      bytes_from tx_count 0 4 ++ txns,
      rw e refl,
      omega (arith, size, length-append (bytes_from tx_count 0 4) txns),
      read_le-append_left (bytes_from tx_count 0 4) txns 0 4 (omega arith),
      λ m h.
          IsAt-same contention shuffled (0 + m) m _ _ (4 + m * marshalled_size)
            (4 + m * marshalled_size) (omega arith) refl refl (all (bytes_from tx_count 0 4) m h),
    )
