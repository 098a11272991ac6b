-- ===== src/YcsbLog/Layout.antt =====
-- The bytes of a transaction, written by app/ycsb/gen-log/generate_ycsb_zipf.cc and read through struct
-- YCSBTransactionMarshalled of app/ycsb.cc: ten indices of four bytes, the write set of two, ten pointers of
-- eight, and six bytes that nobody reads. Numbers lie in memory with the lowest byte first.
use doradd_storage.Base.{
  ℕ, zero, suc, ◌+◌, ◌*◌, ◌^◌, ◌≤◌, ◌<◌, ◌≡◌, refl, sym, ap, ◌∙◌, List, [], ◌∷◌, ◌++◌, map, arith,
  length, length-append, length-replicate, get_or, replicate, range_from, map-agree, map-range_from,
  All, bytes_from, read_le, read_le-append_left, read_le-append_right, read_le-bytes_2,
  read_le-bytes_4, read_le-zeros,
}
use doradd_storage.Ycsb.{YcsbTransactionMarshalled, rows_per_tx, marshalled_size}
use doradd_storage.YcsbLog.{write_keys, pack, padding}

-- The transaction that the pointer `addr` into the log is cast to.
unfoldable pub txn_at : List ℕ → ℕ → YcsbTransactionMarshalled
txn_at bytes addr = record {
  indices = map (λ i. read_le bytes (addr + i * 4) 4) (range_from 0 rows_per_tx);
  write_set = read_le bytes (addr + 40) 2;
  cown_ptrs = map (λ i. read_le bytes (addr + 42 + i * 8) 8) (range_from 0 rows_per_tx);
}

length-write_keys : (keys : List ℕ) → length (write_keys keys) ≡ length keys * 4
unfolding write_keys
length-write_keys [] = refl
length-write_keys (key ∷ keys) = omega (arith, length-write_keys keys)

pub length-pack :
    (keys : List ℕ) (ws : ℕ) → length keys ≡ rows_per_tx → length (pack keys ws) ≡ marshalled_size
unfolding pack
length-pack keys ws ten = omega (
  arith,
  ten,
  length-write_keys keys,
  length-append (write_keys keys) (bytes_from ws 0 2),
  length-append (write_keys keys ++ bytes_from ws 0 2) (replicate padding 0),
  length-replicate {A = ℕ} padding 0,
)

-- Key `i` is read where it was written.
read_key :
    (keys rest : List ℕ) (i : ℕ)
    → All (λ key. key < 2 ^ 32) keys
    → i < length keys
    → read_le (write_keys keys ++ rest) (i * 4) 4 ≡ get_or keys i 0
unfolding write_keys
read_key [] rest i small h = absurd (omega arith)
read_key (key ∷ keys) rest zero (low, small) h = read_le-bytes_4 key [] low
read_key (key ∷ keys) rest (suc i) (low, small) h =
    let further : suc i * 4 ≡ 4 + i * 4 = omega arith in
    ap (λ k. read_le (write_keys (key ∷ keys) ++ rest) k 4) further
    ∙ read_le-append_right (bytes_from key 0 4) (write_keys keys ++ rest) (i * 4) 4
    ∙ read_key keys rest i small (omega arith)

-- The parts of a transaction of ten keys.
module _ (keys : List ℕ) (ws : ℕ) (ten : length keys ≡ rows_per_tx) where
  size_of_keys : length (write_keys keys) ≡ 40
  size_of_keys = omega (arith, ten, length-write_keys keys)

  size_of_head : length (write_keys keys ++ bytes_from ws 0 2) ≡ 42
  size_of_head = omega (arith, size_of_keys, length-append (write_keys keys) (bytes_from ws 0 2))

  read_indices :
      All (λ key. key < 2 ^ 32) keys
      → map (λ i. read_le (pack keys ws) (0 + i * 4) 4) (range_from 0 rows_per_tx) ≡ keys
  unfolding pack
  read_indices small =
      ap (λ n. map (λ i. read_le (pack keys ws) (0 + i * 4) 4) (range_from 0 n)) (sym ten)
      ∙ map-range_from (λ i. read_le (pack keys ws) (0 + i * 4) 4) keys 0 0
          (λ j low.
            let same : 0 + (0 + j) * 4 ≡ j * 4 = omega arith in
            ap (λ k. read_le (pack keys ws) k 4) same
            ∙ read_le-append_left (write_keys keys ++ bytes_from ws 0 2) (replicate padding 0)
                (j * 4) 4 (omega (arith, size_of_head))
            ∙ read_key keys (bytes_from ws 0 2) j small low)

  read_write_set : ws < 2 ^ 16 → read_le (pack keys ws) (0 + 40) 2 ≡ ws
  unfolding pack
  read_write_set small =
      let same : 40 ≡ length (write_keys keys) + 0 = omega (arith, size_of_keys) in
      read_le-append_left (write_keys keys ++ bytes_from ws 0 2) (replicate padding 0) 40 2
        (omega (arith, size_of_head))
      ∙ ap (λ k. read_le (write_keys keys ++ bytes_from ws 0 2) k 2) same
      ∙ read_le-append_right (write_keys keys) (bytes_from ws 0 2) 0 2
      ∙ read_le-bytes_2 ws [] small

  read_cown_ptrs :
      map (λ i. read_le (pack keys ws) (0 + 42 + i * 8) 8) (range_from 0 rows_per_tx)
      ≡ replicate rows_per_tx 0
  unfolding pack
  read_cown_ptrs =
      map-agree (λ i. read_le (pack keys ws) (0 + 42 + i * 8) 8) (λ i. 0) 0 rows_per_tx
        (λ j low high.
          let same : 0 + 42 + j * 8 ≡ length (write_keys keys ++ bytes_from ws 0 2) + j * 8 =
            omega (arith, size_of_head) in
          ap (λ k. read_le (pack keys ws) k 8) same
          ∙ read_le-append_right (write_keys keys ++ bytes_from ws 0 2) (replicate padding 0)
              (j * 8) 8
          ∙ read_le-zeros padding (j * 8) 8)

-- What is packed is read: the keys as indices and the write set, with no pointers yet.
pub txn_at-pack :
    (keys : List ℕ) (ws : ℕ)
    → length keys ≡ rows_per_tx
    → All (λ key. key < 2 ^ 32) keys
    → ws < 2 ^ 16
    → txn_at (pack keys ws) 0
      ≡ record { indices = keys; write_set = ws; cown_ptrs = replicate rows_per_tx 0 }
unfolding txn_at
txn_at-pack keys ws ten keys_small ws_small = cc (
  read_indices keys ws ten keys_small,
  read_write_set keys ws ten ws_small,
  read_cown_ptrs keys ws ten,
)

-- The same bytes further on in the file.
pub txn_at-shift :
    (before bytes after : List ℕ)
    → length bytes ≡ marshalled_size
    → txn_at (before ++ (bytes ++ after)) (length before) ≡ txn_at bytes 0
unfolding txn_at
txn_at-shift before bytes after size =
    let start = length before in
    cc (
      map-agree (λ i. read_le file (start + i * 4) 4) (λ i. read_le bytes (0 + i * 4) 4) 0
          rows_per_tx
          (λ j low high. shift (start + j * 4) (0 + j * 4) 4 (omega arith) (omega arith)),
      shift (start + 40) (0 + 40) 2 refl (omega arith),
      map-agree (λ i. read_le file (start + 42 + i * 8) 8) (λ i. read_le bytes (0 + 42 + i * 8) 8) 0
          rows_per_tx
          (λ j low high. shift (start + 42 + j * 8) (0 + 42 + j * 8) 8 (omega arith) (omega arith)),
    )
  where
    file : List ℕ
    file = before ++ (bytes ++ after)

    shift :
        (o addr n : ℕ)
        → o ≡ length before + addr
        → addr + n ≤ marshalled_size
        → read_le (before ++ (bytes ++ after)) o n ≡ read_le bytes addr n
    shift o addr n e h =
        ap (λ k. read_le (before ++ (bytes ++ after)) k n) e
        ∙ read_le-append_right before (bytes ++ after) addr n
        ∙ read_le-append_left bytes after addr n (omega (arith, size))
