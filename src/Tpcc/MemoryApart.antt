-- ===== src/Tpcc/MemoryApart.antt =====
-- That the arrays of app/tpcc.cc in the build with SINGLE_TABLE do not overlap.
use doradd_storage.Base.{
  ℕ, zero, suc, ◌+◌, ◌*◌, ◌≤◌, ◌<◌, ◌≡◌, ◌≢◌, ◌⊎◌, refl, ap, sym, ◌∙◌, inl, inr, arith, subst, List,
  [], ◌∷◌, get_or, dec_lt,
}
use doradd_storage.Tpcc.Memory.{
  TableName, of_warehouse, of_district, of_customer, of_stock, of_item, of_history, of_order,
  of_order_line, of_new_order, single_table, single_table_size, array_of, rows_of, stride_of,
  row_addr,
}

-- The tables in the order of the allocation, which starts with the first.
abbrev rank : TableName → ℕ
rank of_warehouse = 0
rank of_district = 1
rank of_customer = 2
rank of_stock = 3
rank of_item = 4
rank of_history = 5
rank of_order = 6
rank of_order_line = 7
rank of_new_order = 8

abbrev bytes_of : TableName → ℕ
bytes_of t = stride_of t * rows_of t

abbrev sizes : List ℕ
sizes =
    bytes_of of_warehouse
    ∷ bytes_of of_district
    ∷ bytes_of of_customer
    ∷ bytes_of of_stock
    ∷ bytes_of of_item
    ∷ bytes_of of_history
    ∷ bytes_of of_order
    ∷ bytes_of of_order_line
    ∷ bytes_of of_new_order
    ∷ []

-- The bytes in front of the array of a rank.
abbrev in_front : ℕ → List ℕ → ℕ
in_front zero xs = 0
in_front (suc n) [] = 0
in_front (suc n) (x ∷ xs) = x + in_front n xs

in_front-above : (n m : ℕ) (xs : List ℕ) → n < m → in_front n xs + get_or xs n 0 ≤ in_front m xs
in_front-above n zero xs h = absurd (omega arith)
in_front-above zero (suc m) [] h = omega arith
in_front-above zero (suc m) (x ∷ xs) h = omega arith
in_front-above (suc n) (suc m) [] h = omega arith
in_front-above (suc n) (suc m) (x ∷ xs) h = omega (arith, in_front-above n m xs (omega arith))

array-rank :
    (base : ℕ) (t : TableName) → array_of (single_table base) t ≡ base + in_front (rank t) sizes
unfolding single_table
array-rank base of_warehouse = omega arith
array-rank base of_district = omega arith
array-rank base of_customer = omega arith
array-rank base of_stock = omega arith
array-rank base of_item = omega arith
array-rank base of_history = omega arith
array-rank base of_order = omega arith
array-rank base of_order_line = omega arith
array-rank base of_new_order = omega arith

bytes-rank : (t : TableName) → get_or sizes (rank t) 0 ≡ bytes_of t
bytes-rank of_warehouse = refl
bytes-rank of_district = refl
bytes-rank of_customer = refl
bytes-rank of_stock = refl
bytes-rank of_item = refl
bytes-rank of_history = refl
bytes-rank of_order = refl
bytes-rank of_order_line = refl
bytes-rank of_new_order = refl

abbrev tables : List TableName
tables =
    of_warehouse ∷ of_district ∷ of_customer ∷ of_stock ∷ of_item ∷ of_history ∷ of_order
    ∷ of_order_line ∷ of_new_order ∷ []

tables-rank : (t : TableName) → get_or tables (rank t) of_warehouse ≡ t
tables-rank of_warehouse = refl
tables-rank of_district = refl
tables-rank of_customer = refl
tables-rank of_stock = refl
tables-rank of_item = refl
tables-rank of_history = refl
tables-rank of_order = refl
tables-rank of_order_line = refl
tables-rank of_new_order = refl

rank-few : (t : TableName) → rank t < 9
rank-few of_warehouse = omega arith
rank-few of_district = omega arith
rank-few of_customer = omega arith
rank-few of_stock = omega arith
rank-few of_item = omega arith
rank-few of_history = omega arith
rank-few of_order = omega arith
rank-few of_order_line = omega arith
rank-few of_new_order = omega arith

rank-injective : (t t' : TableName) → rank t ≡ rank t' → t ≡ t'
rank-injective t t' e =
    sym (tables-rank t) ∙ ap (λ n. get_or tables n of_warehouse) e ∙ tables-rank t'

-- The rows of a table stand one behind the other.
stride-step : (t : TableName) (k n : ℕ) → k < n → stride_of t * k + stride_of t ≤ stride_of t * n
stride-step of_warehouse k n h = omega arith
stride-step of_district k n h = omega arith
stride-step of_customer k n h = omega arith
stride-step of_stock k n h = omega arith
stride-step of_item k n h = omega arith
stride-step of_history k n h = omega arith
stride-step of_order k n h = omega arith
stride-step of_order_line k n h = omega arith
stride-step of_new_order k n h = omega arith

-- Two stretches of memory without a common byte.
abbrev pub Apart : ℕ → ℕ → ℕ → ℕ → Type 0
Apart a n b m = (a + n ≤ b) ⊎ (b + m ≤ a)

rows-below :
    (base : ℕ) (t t' : TableName) (key key' : ℕ)
    → key < rows_of t
    → rank t < rank t'
    → row_addr base t key + stride_of t ≤ row_addr base t' key'
rows-below base t t' key key' h less =
    let above = in_front-above (rank t) (rank t') sizes less in
    let array = array-rank base t in
    let array' = array-rank base t' in
    let bytes = bytes-rank t in let inside = stride-step t key (rows_of t) h in omega arith

row_addr-Apart :
    (base : ℕ) (t : TableName) (key key' : ℕ)
    → key ≢ key'
    → Apart (row_addr base t key) (stride_of t) (row_addr base t key') (stride_of t)
row_addr-Apart base t key key' differ = elim (dec_lt key key') [
  | yes less ↦ inl (omega (arith, stride-step t key key' less))
  | no not_less ↦ inr (omega (arith, stride-step t key' key (omega (arith, differ))))
]

-- Every row of every table lies inside the allocation, and no two rows, of the same table or of
-- different ones, share a byte.
pub single_table-Apart :
    (base : ℕ) (t t' : TableName) (key key' : ℕ)
    → key < rows_of t
    → key' < rows_of t'
    → (t ≢ t') ⊎ (key ≢ key')
    → (base ≤ row_addr base t key)
      × (row_addr base t key + stride_of t ≤ base + single_table_size)
      × Apart (row_addr base t key) (stride_of t) (row_addr base t' key') (stride_of t')
single_table-Apart base t t' key key' h h' differ =
    let array = array-rank base t in
    let inside = stride-step t key (rows_of t) h in
    let bytes = bytes-rank t in
    let total = in_front-above (rank t) 9 sizes (rank-few t) in
    (
      omega arith,
      omega arith,
      elim (dec_lt (rank t) (rank t')) [
        | yes less ↦ inl (rows-below base t t' key key' h less)
        | no not_less ↦ elim (dec_lt (rank t') (rank t)) [
          | yes more ↦ inr (rows-below base t' t key' key h' more)
          | no same ↦
              let e = rank-injective t t' (omega arith) in
              subst
                (λ x.
                  Apart (row_addr base t key) (stride_of t) (row_addr base x key') (stride_of x))
                e
                (row_addr-Apart base t key key' (elim differ [ inl n ↦ absurd (n e) | inr n ↦ n ]))
        ]
      ],
    )
