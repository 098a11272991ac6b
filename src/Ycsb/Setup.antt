-- ===== src/Ycsb/Setup.antt =====
-- The loop of `main` of app/ycsb.cc that makes the rows, and the keys that it gives them.
use doradd_storage.Base.{
  ℕ, zero, suc, ◌+◌, ◌*◌, ◌≤◌, ◌<◌, ◌≡◌, refl, ◌∙◌, Option, none, some, arith, length, set, dec_lt,
  length-replicate, length-set, get_or-set_self, get_or-set_ne,
}
use doradd_storage.Ycsb.{cown_stride}
use doradd_storage.Ycsb.Table.{Index, new, get_row, insert_row}

-- `for (int i = ...; i < DB_SIZE; i++)`, from row `i` on for `n` rows: `make_cown_custom` places the
-- cown at the given address. `none` where `insert_row` throws.
unfoldable pub insert_rows : ℕ → ℕ → ℕ → ℕ → Index → Option Index
insert_rows db_size cown_arr_addr zero i x = some x
insert_rows db_size cown_arr_addr (suc n) i x =
    elim (insert_row db_size (cown_arr_addr + cown_stride * i) x) [
      | none ↦ none
      | some (x', key) ↦ insert_rows db_size cown_arr_addr n (i + 1) x'
    ]

-- The first `cnt` rows of the table are the first `cnt` slots of the array at `base`.
pub record IsFilled (db_size base : ℕ) (x : Index) : Type 0 where
  pub whole : length x.map ≡ db_size
  pub counted : x.cnt ≤ db_size
  pub placed : (key : ℕ) → key < x.cnt → get_row x key ≡ base + cown_stride * key

insert_row-IsFilled :
    (db_size base i : ℕ) (x : Index)
    → IsFilled db_size base x
    → x.cnt ≡ i
    → i < db_size
    → (x' : Index) × (insert_row db_size (base + cown_stride * i) x ≡ some (x', i))
      × (x'.cnt ≡ i + 1)
      × IsFilled db_size base x'
unfolding insert_row get_row
insert_row-IsFilled db_size base i x f e room =
    let slot = base + cown_stride * i in
    (
      record { map = set x.map i slot; cnt = i + 1 },
      ground arith,
      refl,
      record {
        whole = length-set x.map i slot ∙ f.whole;
        counted = omega arith;
        placed = λ key h. elim (dec_lt key i) [
          | yes p ↦ get_or-set_ne x.map i key slot 0 (omega arith) ∙ f.placed key (omega arith)
          | no p ↦
              let last : key ≡ i = omega arith in
              rw last (get_or-set_self x.map i slot 0 (omega (arith, f.whole)))
        ];
      },
    )

insert_rows-IsFilled :
    (db_size base n i : ℕ) (x : Index)
    → IsFilled db_size base x
    → x.cnt ≡ i
    → i + n ≤ db_size
    → (x' : Index) × (insert_rows db_size base n i x ≡ some x')
      × (x'.cnt ≡ i + n)
      × IsFilled db_size base x'
unfolding insert_rows
insert_rows-IsFilled db_size base zero i x f e room = (x, refl, omega arith, f)
insert_rows-IsFilled db_size base (suc n) i x f e room =
    let (x', done, cnt, f') = insert_row-IsFilled db_size base i x f e (omega arith) in
    let (x'', done', cnt', f'') =
      insert_rows-IsFilled db_size base n (i + 1) x' f' cnt (omega arith) in
    (x'', rw (done, insert_rows) done', omega arith, f'')

-- The loop of `main` fills the table without an exception, the row with key `k` is the `k`-th slot of
-- the array, and one more insertion throws.
pub insert_rows-all :
    (db_size base : ℕ)
    → (x : Index) × (insert_rows db_size base db_size 0 (new db_size) ≡ some x)
      × ((key : ℕ) → key < db_size → get_row x key ≡ base + cown_stride * key)
      × ((r : ℕ) → insert_row db_size r x ≡ none)
unfolding new insert_row
insert_rows-all db_size base =
    let empty : IsFilled db_size base (new db_size) = record {
      whole = length-replicate db_size 0;
      counted = omega arith;
      placed = λ key h. absurd (omega arith);
    } in
    let (x, done, cnt, f) =
      insert_rows-IsFilled db_size base db_size 0 (new db_size) empty refl (omega arith) in
    (x, done, λ key h. f.placed key (omega arith), λ r. ground arith)
