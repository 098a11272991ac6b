-- ===== src/Tpcc/Payment.antt =====
-- The Payment transaction of app/tpcc.cc.
use doradd_storage.Base.{
  ℕ, ◌+◌, ◌<◌, ◌≡◌, List, [], ◌∷◌, arith, length, if◌then◌else◌, ◌==◌, add64, u64_mod,
}
use doradd_storage.Tpcc.Rows.{Floats, Rows, update, warehouse_op}

pub record PaymentOf : Type 0 where
  pub w : ℕ
  pub d : ℕ
  pub c : ℕ
  pub h_amount : ℕ

module _ (f : Floats) where
  -- The lambda of the payment behind WAREHOUSE_OP.
  unfoldable pub payment_rest : ℕ → ℕ → ℕ → Rows f → Rows f
  payment_rest d c h_amount r =
      let district = r.districts d in
      let customer = r.customers c in
      record r {
        districts =
            update d (record district { d_ytd = add64 district.d_ytd h_amount }) r.districts;
        customers =
            update c
              (record customer {
                c_balance = f.minus customer.c_balance h_amount;
                c_ytd_payment = add64 customer.c_ytd_payment h_amount;
                c_payment_cnt = add64 customer.c_payment_cnt 1;
              })
              r.customers;
        counted = r.counted + 1;
      }

  -- The lambda of the build without WAREHOUSE_SPLIT.
  unfoldable pub payment : PaymentOf → Rows f → Rows f
  payment p r = payment_rest p.d p.c p.h_amount (warehouse_op f p.w p.h_amount r)

  abbrev pub payments : List PaymentOf → Rows f → Rows f
  payments [] r = r
  payments (p ∷ ps) r = payments ps (payment p r)

-- The sum of the amounts whose payment has `a` for the given row, and their number.
abbrev pub paid : (PaymentOf → ℕ) → ℕ → List PaymentOf → ℕ
paid row a [] = 0
paid row a (p ∷ ps) = if a == row p then p.h_amount + paid row a ps else paid row a ps

abbrev pub paid_count : (PaymentOf → ℕ) → ℕ → List PaymentOf → ℕ
paid_count row a [] = 0
paid_count row a (p ∷ ps) = if a == row p then 1 + paid_count row a ps else paid_count row a ps

-- As long as no 64-bit total overflows, a sequence of payments adds to each warehouse, district and
-- customer the sum of what was paid there, to each customer's count the number of payments, and to
-- the transaction counter the length of the sequence.
pub payments-add_up :
    (f : Floats) (ps : List PaymentOf) (r : Rows f) (w d c : ℕ)
    → (r.warehouses w).w_ytd + paid (λ p. p.w) w ps < u64_mod
    → (r.districts d).d_ytd + paid (λ p. p.d) d ps < u64_mod
    → (r.customers c).c_ytd_payment + paid (λ p. p.c) c ps < u64_mod
    → (r.customers c).c_payment_cnt + paid_count (λ p. p.c) c ps < u64_mod
    → (((payments f ps r).warehouses w).w_ytd ≡ (r.warehouses w).w_ytd + paid (λ p. p.w) w ps)
      × (((payments f ps r).districts d).d_ytd ≡ (r.districts d).d_ytd + paid (λ p. p.d) d ps)
      × (((payments f ps r).customers c).c_ytd_payment
          ≡ (r.customers c).c_ytd_payment + paid (λ p. p.c) c ps)
      × (((payments f ps r).customers c).c_payment_cnt
          ≡ (r.customers c).c_payment_cnt + paid_count (λ p. p.c) c ps)
      × ((payments f ps r).counted ≡ r.counted + length ps)
unfolding payment payment_rest warehouse_op
payments-add_up f [] r w d c hw hd hc hn =
    (omega arith, omega arith, omega arith, omega arith, omega arith)
payments-add_up f (p ∷ ps) r w d c hw hd hc hn =
    let r' = payment f p r in
    let ew : (r'.warehouses w).w_ytd + paid (λ p. p.w) w ps
        ≡ (r.warehouses w).w_ytd + paid (λ p. p.w) w (p ∷ ps) =
      ground arith in
    let ed : (r'.districts d).d_ytd + paid (λ p. p.d) d ps
        ≡ (r.districts d).d_ytd + paid (λ p. p.d) d (p ∷ ps) =
      ground arith in
    let ec : (r'.customers c).c_ytd_payment + paid (λ p. p.c) c ps
        ≡ (r.customers c).c_ytd_payment + paid (λ p. p.c) c (p ∷ ps) =
      ground arith in
    let en : (r'.customers c).c_payment_cnt + paid_count (λ p. p.c) c ps
        ≡ (r.customers c).c_payment_cnt + paid_count (λ p. p.c) c (p ∷ ps) =
      ground arith in
    let (iw, id, ic, in_, il) =
      payments-add_up f ps r' w d c (omega arith) (omega arith) (omega arith) (omega arith) in
    (omega arith, omega arith, omega arith, omega arith, omega (arith, il))
