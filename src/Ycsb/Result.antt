-- ===== src/Ycsb/Result.antt =====
-- The rows that a YCSB transaction leaves, from the rows that it finds.
use doradd_storage.Base.{
  ℕ, ◌+◌, ◌/◌, ◌%◌, ◌≡◌, refl, ap, ◌∙◌, ◌++◌, replicate, drop, inl, inr, List, [], ◌∷◌, false,
  arith, if◌then◌else◌, ◌==◌, ==_iff, All, Bool-cases,
}
use doradd_storage.Ycsb.{
  write_size, Rows, Locals, Behaviour, write_row, memset, add_payload, txn_row, txn_rows, body,
}
use doradd_storage.Ycsb.Body.{contains, txn_rows-frame_all}

-- No cown is acquired twice.
abbrev pub IsDistinct : List ℕ → Type 0
IsDistinct [] = Unit
IsDistinct (a ∷ as_) = (contains as_ a ≡ false) × IsDistinct as_

-- The reference: a row in the write set begins with the sum of the rows read before it; the others
-- stay as they are.
abbrev pub result : Rows → List ℕ → ℕ → ℕ → ℕ → List ℕ
result rows [] ws sum x = rows x
result rows (a ∷ as_) ws sum x =
    let rest = result rows as_ (ws / 2) (if ws % 2 == 1 then sum else add_payload (rows a) sum) x in
    if x == a then (if ws % 2 == 1 then memset (rows a) sum else rows a) else rest

result-agree :
    (r r' : Rows) (addrs : List ℕ) (ws sum x : ℕ)
    → All (λ a. r a ≡ r' a) addrs
    → r x ≡ r' x
    → result r addrs ws sum x ≡ result r' addrs ws sum x
result-agree r r' [] ws sum x h e = e
result-agree r r' (a ∷ addrs) ws sum x h e = rw h.0 (
    ap (λ rest. if x == a then (if ws % 2 == 1 then memset (r' a) sum else r' a) else rest)
      (result-agree r r' addrs (ws / 2) _ x h.1 e))

write_row-other :
    (addrs : List ℕ) (a : ℕ) (p : List ℕ) (rows : Rows)
    → contains addrs a ≡ false
    → All (λ y. write_row a p rows y ≡ rows y) addrs
unfolding write_row
write_row-other [] a p rows h = tt
write_row-other (y ∷ addrs) a p rows h =
    (ground arith, write_row-other addrs a p rows (ground arith))

write_row-ne :
    (a x : ℕ) (p : List ℕ) (rows : Rows) → (x == a) ≡ false → write_row a p rows x ≡ rows x
unfolding write_row
write_row-ne a x p rows e = rw e

txn_rows-result :
    (addrs : List ℕ) (s : Locals) (x : ℕ)
    → IsDistinct addrs
    → (txn_rows addrs s).rows x ≡ result s.rows addrs s.write_set_l s.sum x
unfolding txn_rows
txn_rows-result [] s x d = refl
txn_rows-result (a ∷ addrs) s x d = elim (Bool-cases (x == a)) [
  | inl e ↦
      let here : x ≡ a = (==_iff x a).0 e in
      let frame = txn_rows-frame_all addrs (txn_row a s) x (rw here d.0) in ground (arith, frame)
  | inr e ↦
      let written = memset (s.rows a) s.sum in
      let ih = txn_rows-result addrs (txn_row a s) x d.1 in
      let same =
        result-agree (write_row a written s.rows) s.rows addrs (s.write_set_l / 2) s.sum x
          (write_row-other addrs a written s.rows d.0) (write_row-ne a x written s.rows e) in
      elim (Bool-cases (s.write_set_l % 2 == 1)) [
        | inl bit ↦ ground (arith, ih, same)
        | inr bit ↦ ground (arith, ih)
      ]
]

-- The plain sum of the bytes of a row.
abbrev pub byte_sum : List ℕ → ℕ
byte_sum [] = 0
byte_sum (b ∷ bytes) = b + byte_sum bytes

-- The specification: a row in the write set begins with WRITE_SIZE bytes that are the sum of the bytes of
-- the rows read before it, modulo 256, and goes on as it did; the other rows stay as they are.
abbrev pub meant : Rows → List ℕ → ℕ → ℕ → ℕ → List ℕ
meant rows [] ws sum x = rows x
meant rows (a ∷ as_) ws sum x =
    let rest = meant rows as_ (ws / 2) (if ws % 2 == 1 then sum else sum + byte_sum (rows a)) x in
    if x == a
    then (if ws % 2 == 1
        then replicate write_size (sum % 256) ++ drop write_size (rows a)
        else rows a)
    else rest

add_payload_lem :
    (bytes : List ℕ) (sum : ℕ) → add_payload bytes (sum % 256) ≡ (sum + byte_sum bytes) % 256
unfolding add_payload
add_payload_lem [] sum = omega arith
add_payload_lem (b ∷ bytes) sum =
    let step : (sum % 256 + b) % 256 ≡ (sum + b) % 256 = omega arith in
    rw step (add_payload_lem bytes (sum + b) ∙ ap (λ n. n % 256) (omega arith))

result-meant :
    (rows : Rows) (addrs : List ℕ) (ws sum x : ℕ)
    → result rows addrs ws (sum % 256) x ≡ meant rows addrs ws sum x
unfolding memset
result-meant rows [] ws sum x = refl
result-meant rows (a ∷ addrs) ws sum x = elim (Bool-cases (ws % 2 == 1)) [
  | inl bit ↦ ground (arith, bit, result-meant rows addrs (ws / 2) sum x)
  | inr bit ↦ ground (
    arith,
    bit,
    add_payload_lem (rows a) sum,
    result-meant rows addrs (ws / 2) (sum + byte_sum (rows a)) x,
  )
]

-- On distinct rows a transaction does what its write set says: the first WRITE_SIZE bytes of each row that
-- it writes become the sum of all bytes of the rows that it reads before, modulo 256, the other bytes of
-- that row stay as they are, and all other rows are unchanged.
pub body-result :
    (b : Behaviour) (rows : Rows) (x : ℕ)
    → IsDistinct b.cowns
    → body b rows x ≡ meant rows b.cowns b.ws_cap 0 x
unfolding body
body-result b rows x d =
    txn_rows-result b.cowns (record { rows = rows; sum = 0; write_set_l = b.ws_cap }) x d
    ∙ result-meant rows b.cowns b.ws_cap 0 x
