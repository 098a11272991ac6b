-- ===== src/YcsbLog/Keys.antt =====
-- The keys of a generated transaction, and that they are found when the draws reach ten rows that lie far
-- enough apart.
use doradd_storage.Base.{
  ℕ, zero, suc, ◌+◌, ◌-◌, ◌/◌, ◌%◌, ◌≤◌, ◌<◌, ◌≡◌, inl, inr, refl, ap, ◌∙◌, List, [], ◌∷◌, ◌++◌,
  Bool, true, false, some, arith, ltb, length, length-append, contains, IsDistinct,
  IsDistinct-append, pigeonhole, All, All-append, Option-cases,
}
use doradd_storage.YcsbLog.{
  row_count, row_per_tx, mask_size, nr_cont_key, try_key, gen_key, keys_from, gen_keys,
}

-- The keys found so far are rows of the table, and no two are the same.
pub record AreKeys (keys : List ℕ) : Type 0 where
  pub rows : All (λ key. key < row_count) keys
  pub distinct : IsDistinct keys

-- The source draws each of ten rows again and again, one of them at least within any `n` draws; these ten
-- lie in ten different blocks of `mask_size` rows, none of them at the beginning of its block. Other rows
-- may never be drawn. A generator of finitely many states, as `ZipfianRandom` is, comes round: with the
-- length of its cycle as `n`, this says that the cycle has ten such rows.
pub record Reaches (n : ℕ) (draw : ℕ → ℕ) : Type 0 where
  pub hot : ℕ → ℕ
  pub hot_row : (i : ℕ) → i < row_per_tx → hot i < row_count
  pub inside : (i : ℕ) → i < row_per_tx → 0 < hot i % mask_size
  pub apart :
      (i j : ℕ) → i < row_per_tx → j < row_per_tx → hot i / mask_size ≡ hot j / mask_size → i ≡ j
  pub drawn : (i k : ℕ) → i < row_per_tx → (j : ℕ) × (j < n) × (draw (k + j) % row_count ≡ hot i)

try_key-new :
    (contention : Bool) (keys : List ℕ) (drawn key : ℕ)
    → try_key contention keys drawn ≡ some key
    → (key < row_count) × (contains keys key ≡ false)
unfolding try_key
try_key-new contention keys drawn key h = ground arith

-- The key that a draw of `row` gives, if it can be used: its block, or the row.
candidate : Bool → ℕ → ℕ
candidate true row = row - row % mask_size
candidate false row = row

masked_key : Bool → List ℕ → Bool
masked_key contention keys = ltb (length keys) (nr_cont_key contention)

try_key-candidate :
    (contention : Bool) (keys : List ℕ) (drawn row : ℕ) (b : Bool)
    → masked_key contention keys ≡ b
    → drawn % row_count ≡ row
    → 0 < row % mask_size
    → contains keys (candidate b row) ≡ false
    → try_key contention keys drawn ≡ some (candidate b row)
unfolding try_key masked_key candidate
try_key-candidate contention keys drawn row true m e inside fresh =
    rw e (ground (arith, m, inside, fresh))
try_key-candidate contention keys drawn row false m e inside fresh =
    rw e (ground (arith, m, inside, fresh))

candidate-block :
    (b : Bool) (i j : ℕ) → candidate b i ≡ candidate b j → i / mask_size ≡ j / mask_size
unfolding candidate
candidate-block true i j h = omega (arith, h)
candidate-block false i j h = ap (λ row. row / mask_size) h

-- With fewer than ten keys taken, a draw below `n` can be used.
some_draw :
    (n : ℕ) (contention : Bool) (draw : ℕ → ℕ) (keys : List ℕ) (k : ℕ)
    → Reaches n draw
    → length keys < 10
    → (j : ℕ) × (j < n) × (key : ℕ) × (try_key contention keys (draw (k + j)) ≡ some key)
some_draw n contention draw keys k r h =
    let b = masked_key contention keys in
    let (i, low, fresh) =
      pigeonhole (λ i. candidate b (r.hot i)) 10 keys
        (λ i j a c same. r.apart i j a c (candidate-block b (r.hot i) (r.hot j) same)) h in
    let (j, near, e) = r.drawn i k low in
    (
      j,
      near,
      candidate b (r.hot i),
      try_key-candidate contention keys (draw (k + j)) (r.hot i) b refl e (r.inside i low) fresh,
    )

-- The first of the draws that can be used gives the key.
gen_key-some :
    (fuel : ℕ) (contention : Bool) (draw : ℕ → ℕ) (keys : List ℕ) (k j key : ℕ)
    → j < fuel
    → try_key contention keys (draw (k + j)) ≡ some key
    → (found k' : ℕ) × (gen_key fuel contention draw keys k ≡ some (found, k'))
      × (found < row_count)
      × (contains keys found ≡ false)
unfolding gen_key
gen_key-some zero contention draw keys k j key h e = absurd (omega arith)
gen_key-some (suc fuel) contention draw keys k zero key h e =
    let e' : try_key contention keys (draw k) ≡ some key =
      ap (λ i. try_key contention keys (draw i)) (omega arith) ∙ e in
    let (low, fresh) = try_key-new contention keys (draw k) key e' in
    (key, k + 1, rw (e', gen_key) refl, low, fresh)
gen_key-some (suc fuel) contention draw keys k (suc j) key h e =
    elim (Option-cases (try_key contention keys (draw k))) [
      | inr (found, now) ↦
          let (low, fresh) = try_key-new contention keys (draw k) found now in
          (found, k + 1, rw (now, gen_key) refl, low, fresh)
      | inl no_use ↦
          let (found, k', e', low, fresh) =
            gen_key-some fuel contention draw keys (k + 1) j key (omega arith)
              (ap (λ i. try_key contention keys (draw i)) (omega arith) ∙ e) in
          (found, k', rw (no_use, gen_key) e', low, fresh)
    ]

keys_from-some :
    (fuel : ℕ) (contention : Bool) (draw : ℕ → ℕ) (n : ℕ) (keys : List ℕ) (k : ℕ)
    → Reaches fuel draw
    → length keys + n ≤ 10
    → AreKeys keys
    → (found : List ℕ) × (k' : ℕ) × (keys_from fuel contention draw n keys k ≡ some (found, k'))
      × (length found ≡ length keys + n)
      × AreKeys found
unfolding keys_from
keys_from-some fuel contention draw zero keys k reaches h ok = (keys, k, refl, omega arith, ok)
keys_from-some fuel contention draw (suc n) keys k reaches h ok =
    let (j, near, key, usable) = some_draw fuel contention draw keys k reaches (omega arith) in
    let (new, k1, e, low, fresh) = gen_key-some fuel contention draw keys k j key near usable in
    let longer : length (keys ++ (new ∷ [])) ≡ suc (length keys) =
      omega (arith, length-append keys (new ∷ [])) in
    let ok' : AreKeys (keys ++ (new ∷ [])) = record {
      rows = All-append _ keys (new ∷ []) ok.rows (low, tt);
      distinct = IsDistinct-append keys new ok.distinct fresh;
    } in
    let (found, k2, e', size, good) =
      keys_from-some fuel contention draw n (keys ++ (new ∷ [])) k1 reaches (omega arith) ok' in
    (found, k2, rw e e', omega arith, good)

-- If there are ten rows in ten different blocks of 2^17 rows, none at the beginning of its block, and each
-- of the ten is drawn at least once in any `fuel` draws, whatever other rows are drawn or never drawn,
-- then `gen_keys` returns, after at most `fuel` draws for each key: ten different rows of the table.
pub gen_keys-returns :
    (fuel : ℕ) (contention : Bool) (draw : ℕ → ℕ) (k : ℕ)
    → Reaches fuel draw
    → (keys : List ℕ) × (k' : ℕ) × (gen_keys fuel contention draw k ≡ some (keys, k'))
      × (length keys ≡ row_per_tx)
      × AreKeys keys
unfolding gen_keys
gen_keys-returns fuel contention draw k reaches =
    keys_from-some fuel contention draw row_per_tx [] k reaches (omega arith)
      (record { rows = tt; distinct = tt })
