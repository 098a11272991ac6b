-- ===== src/Tpcc/LoadAll.antt =====
-- The loader's loops of app/tpcc/generator.hpp, up to the orders, one after the other as in `main`.
use doradd_storage.Base.{ℕ, ◌+◌, ◌*◌, ◌≡◌, refl, some, arith, subst}
use doradd_storage.Tpcc.{
  num_warehouses, districts_per_warehouse, customers_per_district, tsize_district, tsize_customer,
  tsize_history,
}
use doradd_storage.Tpcc.Rows.{Floats}
use doradd_storage.Tpcc.Rand.{Platform}
use doradd_storage.Tables.Filled.{for_ids-invariant}
use doradd_storage.Tpcc.Keys.{InRange, customer_key-value}
use doradd_storage.Tpcc.Load.{
  Arrays, Loading, add_warehouse, add_district, add_customer_and_history, generate_warehouses,
  generate_districts, generate_customer_and_history,
}
use doradd_storage.Tables.{for_ids}
use doradd_storage.Tpcc.Loaded.{
  Progress, add_warehouse-Progress, add_district-Progress, add_customer-Progress,
  add_history-Progress,
}

module _ (p : Platform) (f : Floats) (arrays : Arrays) where
  pub generate_warehouses-Progress :
      (l : Loading f)
      → Progress p f arrays 0 0 0 0 0 0 l
      → (l' : Loading f) × (generate_warehouses p f arrays l ≡ some l')
        × Progress p f arrays num_warehouses 0 0 0 0 0 l'
  unfolding generate_warehouses
  generate_warehouses-Progress l g =
      let (l', done, (k, e, g')) =
        for_ids-invariant (add_warehouse p f arrays)
          (λ w l0. (k : ℕ) × (k + 1 ≡ w) × Progress p f arrays k 0 0 0 0 0 l0) 1 num_warehouses
          (λ w l0 low high (k, e, g0).
            let (l1, done, g1) =
              add_warehouse-Progress p f arrays w k 0 0 0 0 0 l0 g0 (omega arith) (omega arith) in
            (l1, done, (k + 1, omega arith, g1)))
          l (0, refl, g) in
      (l', done, subst (λ n. Progress p f arrays n 0 0 0 0 0 l') (omega arith) g')

  -- The districts of one warehouse.
  districts-Progress :
      (w k : ℕ) (l : Loading f)
      → InRange w num_warehouses
      → k + 10 ≡ w * 10
      → Progress p f arrays num_warehouses k 0 0 0 0 l
      → (l' : Loading f) × (for_ids (add_district p f arrays w) 1 districts_per_warehouse l
          ≡ some l')
        × ((k' : ℕ) × (k' ≡ w * 10) × Progress p f arrays num_warehouses k' 0 0 0 0 l')
  districts-Progress w k l hw hk g =
      let (l', done, (k', e, g')) =
        for_ids-invariant (add_district p f arrays w)
          (λ d l0.
            (n : ℕ) × (n + 11 ≡ w * 10 + d) × Progress p f arrays num_warehouses n 0 0 0 0 l0)
          1 districts_per_warehouse
          (λ d l0 low high (n, e, g0).
            let (l1, done, g1) =
              add_district-Progress p f arrays w d num_warehouses n 0 0 0 0 l0 g0 (omega arith)
                (omega arith) in
            (l1, done, (n + 1, omega arith, g1)))
          l (k, omega arith, g) in
      (l', done, (k', omega arith, g'))

  pub generate_districts-Progress :
      (l : Loading f)
      → Progress p f arrays num_warehouses 0 0 0 0 0 l
      → (l' : Loading f) × (generate_districts p f arrays l ≡ some l')
        × Progress p f arrays num_warehouses tsize_district 0 0 0 0 l'
  unfolding generate_districts
  generate_districts-Progress l g =
      let (l', done, (k, e, g')) =
        for_ids-invariant _
          (λ w l0. (k : ℕ) × (k + 10 ≡ w * 10) × Progress p f arrays num_warehouses k 0 0 0 0 l0) 1
          num_warehouses
          (λ w l0 low high (k, e, g0).
            let (l1, done, (k', e', g1)) = districts-Progress w k l0 (low, omega arith) e g0 in
            (l1, done, (k', omega arith, g1)))
          l (0, refl, g) in
      (l', done, subst (λ n. Progress p f arrays num_warehouses n 0 0 0 0 l') (omega arith) g')

  -- A customer and its history.
  add_customer_and_history-Progress :
      (w d c k : ℕ) (l : Loading f)
      → InRange w num_warehouses
      → InRange d districts_per_warehouse
      → InRange c customers_per_district
      → k + 33_001 ≡ w * 30_000 + d * 3000 + c
      → Progress p f arrays num_warehouses tsize_district k k 0 0 l
      → (l' : Loading f) × (add_customer_and_history p f arrays w d c l ≡ some l')
        × Progress p f arrays num_warehouses tsize_district (k + 1) (k + 1) 0 0 l'
  unfolding add_customer_and_history
  add_customer_and_history-Progress w d c k l hw hd hc hk g =
      let key = customer_key-value w d c hw hd hc in
      let (l1, done, g1) =
        add_customer-Progress p f arrays w d c num_warehouses tsize_district k k 0 0 l g
          (omega arith) (omega arith) in
      let (l2, done', g2) =
        add_history-Progress p f arrays w d c num_warehouses tsize_district (k + 1) k 0 0 l1 g1
          (omega arith) (omega arith) in
      (l2, rw (done, add_customer_and_history) done', g2)

  -- The customers of one district.
  customers-Progress :
      (w d k : ℕ) (l : Loading f)
      → InRange w num_warehouses
      → InRange d districts_per_warehouse
      → k + 33_000 ≡ w * 30_000 + d * 3000
      → Progress p f arrays num_warehouses tsize_district k k 0 0 l
      → (l' : Loading f) × (for_ids
            (add_customer_and_history p f arrays w d)
            1
            customers_per_district
            l
          ≡ some l')
        × ((k' : ℕ) × (k' ≡ k + 3000)
            × Progress p f arrays num_warehouses tsize_district k' k' 0 0 l')
  customers-Progress w d k l hw hd hk g =
      let (l', done, (k', e, g')) =
        for_ids-invariant (add_customer_and_history p f arrays w d)
          (λ c l0.
            (n : ℕ) × (n + 33_001 ≡ w * 30_000 + d * 3000 + c)
            × Progress p f arrays num_warehouses tsize_district n n 0 0 l0)
          1 customers_per_district
          (λ c l0 low high (n, e, g0).
            let (l1, done, g1) =
              add_customer_and_history-Progress w d c n l0 hw hd (low, omega arith) e g0 in
            (l1, done, (n + 1, omega arith, g1)))
          l (k, omega arith, g) in
      (l', done, (k', omega arith, g'))

  -- The customers of one warehouse.
  warehouse_customers-Progress :
      (w k : ℕ) (l : Loading f)
      → InRange w num_warehouses
      → k + 30_000 ≡ w * 30_000
      → Progress p f arrays num_warehouses tsize_district k k 0 0 l
      → (l' : Loading f) × (for_ids
            (λ d. for_ids (add_customer_and_history p f arrays w d) 1 customers_per_district)
            1
            districts_per_warehouse
            l
          ≡ some l')
        × ((k' : ℕ) × (k' ≡ w * 30_000)
            × Progress p f arrays num_warehouses tsize_district k' k' 0 0 l')
  warehouse_customers-Progress w k l hw hk g =
      let (l', done, (k', e, g')) =
        for_ids-invariant _
          (λ d l0.
            (n : ℕ) × (n + 33_000 ≡ w * 30_000 + d * 3000)
            × Progress p f arrays num_warehouses tsize_district n n 0 0 l0)
          1 districts_per_warehouse
          (λ d l0 low high (n, e, g0).
            let (l1, done, (n', e', g1)) = customers-Progress w d n l0 hw (low, omega arith) e g0 in
            (l1, done, (n', omega arith, g1)))
          l (k, omega arith, g) in
      (l', done, (k', omega arith, g'))

  pub generate_customer_and_history-Progress :
      (l : Loading f)
      → Progress p f arrays num_warehouses tsize_district 0 0 0 0 l
      → (l' : Loading f) × (generate_customer_and_history p f arrays l ≡ some l')
        × Progress p f arrays num_warehouses tsize_district tsize_customer tsize_history 0 0 l'
  unfolding generate_customer_and_history
  generate_customer_and_history-Progress l g =
      let (l', done, (k, e, g')) =
        for_ids-invariant _
          (λ w l0.
            (k : ℕ) × (k + 30_000 ≡ w * 30_000)
            × Progress p f arrays num_warehouses tsize_district k k 0 0 l0)
          1 num_warehouses
          (λ w l0 low high (k, e, g0).
            let (l1, done, (k', e', g1)) =
              warehouse_customers-Progress w k l0 (low, omega arith) e g0 in
            (l1, done, (k', omega arith, g1)))
          l (0, refl, g) in
      (
        l',
        done,
        subst (λ n. Progress p f arrays num_warehouses tsize_district n n 0 0 l') (omega arith) g',
      )
