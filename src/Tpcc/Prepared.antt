-- ===== src/Tpcc/Prepared.antt =====
-- What a transaction acquires in the builds with INDEXER: the loader, `prepare_cowns` and
-- `parse_and_process` of app/tpcc.cc together.
use doradd_storage.Base.{
  ℕ, zero, suc, ◌+◌, ◌-◌, ◌*◌, ◌≤◌, ◌<◌, ◌≡◌, inl, refl, ap, ap₂, ◌∙◌, List, [], ◌∷◌, true, false,
  arith, length, get_or, set, leb,
}
use doradd_storage.Tpcc.{num_warehouses, districts_per_warehouse, customers_per_district, num_items}
use doradd_storage.Tpcc.Database.{Database}
use doradd_storage.Tpcc.Rows.{Floats}
use doradd_storage.Tpcc.Keys.{InRange}
use doradd_storage.Tpcc.NewOrder.{param}
use doradd_storage.Tpcc.Load.{Arrays}
use doradd_storage.Tpcc.Loader.{Placed}
use doradd_storage.Tpcc.Txn.{
  TpccTransactionMarshalled, Behaviour, head_ptrs, stock_addr, item_addr, found_ptrs, get_cown_ptrs,
  when_split, behaviours,
}
use doradd_storage.Txn.Pointers.{fill_ptrs, length-fill_ptrs, fill_ptrs-outside, fill_ptrs-inside}

-- The pairs of two sequences of addresses, from `i` on.
abbrev pub pairs : (ℕ → ℕ) → (ℕ → ℕ) → ℕ → ℕ → List (ℕ × ℕ)
pairs s t i zero = []
pairs s t i (suc n) = (s i, t i) ∷ pairs s t (i + 1) n

get_cown_ptrs-pairs :
    (ptrs : List ℕ) (s t : ℕ → ℕ) (i n : ℕ)
    → ((j : ℕ) → i ≤ j → j < i + n → (get_or ptrs (3 + j) 0 ≡ s j) × (get_or ptrs (18 + j) 0 ≡ t j))
    → get_cown_ptrs ptrs (i + 1) n ≡ pairs s t i n
unfolding get_cown_ptrs
get_cown_ptrs-pairs ptrs s t i zero h = refl
get_cown_ptrs-pairs ptrs s t i (suc n) h =
    let now = h i (omega arith) (omega arith) in
    let stock : get_or ptrs (2 + (i + 1)) 0 ≡ s i =
      ap (λ j. get_or ptrs j 0) (let e : 2 + (i + 1) ≡ 3 + i = omega arith in e) ∙ now.0 in
    let item : get_or ptrs (17 + (i + 1)) 0 ≡ t i =
      ap (λ j. get_or ptrs j 0) (let e : 17 + (i + 1) ≡ 18 + i = omega arith in e) ∙ now.1 in
    ap₂ ◌∷◌ (ap₂ (λ a b. (a, b)) stock item)
      (get_cown_ptrs-pairs ptrs s t (i + 1) n (λ j low high. h j (omega arith) (omega arith)))

set-three :
    (ptrs : List ℕ) (a b c : ℕ)
    → 3 ≤ length ptrs
    → let q = set (set (set ptrs 0 a) 1 b) 2 c in
      (length q ≡ length ptrs) × (get_or q 0 0 ≡ a) × (get_or q 1 0 ≡ b) × (get_or q 2 0 ≡ c)
set-three [] a b c h = absurd (omega arith)
set-three (x ∷ []) a b c h = absurd (omega arith)
set-three (x ∷ y ∷ []) a b c h = absurd (omega arith)
set-three (x ∷ y ∷ z ∷ ptrs) a b c h = (refl, refl, refl, refl)

module _ (f : Floats) (arrays : Arrays) (db : Database f.Float) (placed : Placed f arrays db) where
  -- The ids of a New Order lie in the tables, and it has 1 to 15 items.
  pub record IsNewOrder (txm : TpccTransactionMarshalled) : Type 0 where
    pub kind : txm.txn_type ≡ 0
    pub size : length txm.cown_ptrs ≡ 33
    pub warehouse_id : InRange (param txm.params 0) num_warehouses
    pub district_id : InRange (param txm.params 1) districts_per_warehouse
    pub customer_id : InRange (param txm.params 2) customers_per_district
    pub item_number : InRange (param txm.params 50) 15
    pub supply_ids :
        (j : ℕ) → j < param txm.params 50 → InRange (param txm.params (20 + j)) num_warehouses
    pub item_ids : (j : ℕ) → j < param txm.params 50 → InRange (param txm.params (5 + j)) num_items

  module _ (txm : TpccTransactionMarshalled) (ok : IsNewOrder txm) where
    heads-found :
        let ptrs = head_ptrs f db txm.params txm.cown_ptrs in
        let w = param txm.params 0 in
        let d = param txm.params 1 in
        let c = param txm.params 2 in
        (length ptrs ≡ 33)
        × (get_or ptrs 0 0 ≡ arrays.warehouse + 1024 * (w - 1))
        × (get_or ptrs 1 0 ≡ arrays.district + 1024 * ((w - 1) * 10 + (d - 1)))
        × (get_or ptrs 2 0 ≡ arrays.customer + 2048 * ((w - 1) * 30_000 + (d - 1) * 3000 + (c - 1)))
    unfolding head_ptrs
    heads-found =
        let (size, w, d, c) = set-three txm.cown_ptrs _ _ _ (omega (arith, ok.size)) in
        (
          size ∙ ok.size,
          w ∙ placed.warehouse_addr _ ok.warehouse_id,
          d ∙ placed.district_addr _ _ ok.warehouse_id ok.district_id,
          c ∙ placed.customer_addr _ _ _ ok.warehouse_id ok.district_id ok.customer_id,
        )

    abbrev stock_place : ℕ → ℕ
    stock_place j =
        arrays.stock
        + 1024 * ((param txm.params (20 + j) - 1) * 100_000 + (param txm.params (5 + j) - 1))

    abbrev item_place : ℕ → ℕ
    item_place j = arrays.item + 1024 * (param txm.params (5 + j) - 1)

    lines-found :
        (j : ℕ)
        → j < param txm.params 50
        → (get_or (found_ptrs f db txm) (3 + j) 0 ≡ stock_place j)
          × (get_or (found_ptrs f db txm) (18 + j) 0 ≡ item_place j)
    unfolding found_ptrs stock_addr item_addr
    lines-found j h =
        let heads = head_ptrs f db txm.params txm.cown_ptrs in
        let n = param txm.params 50 in
        let size = heads-found.0 in
        let stocks = fill_ptrs (stock_addr f db txm.params) 3 0 n heads in
        let many = ok.item_number.1 in
        rw (ok.kind, found_ptrs)
          (
            fill_ptrs-outside (item_addr f db txm.params) 18 0 n stocks (3 + j) (inl (omega arith))
                ∙ fill_ptrs-inside (stock_addr f db txm.params) 3 0 n heads j (omega arith)
                    (omega arith) (omega arith)
                ∙ placed.stock_addr _ _ (ok.supply_ids j h) (ok.item_ids j h),
            fill_ptrs-inside (item_addr f db txm.params) 18 0 n stocks j (omega arith) (omega arith)
                  (omega (arith, length-fill_ptrs (stock_addr f db txm.params) 3 0 n heads))
                ∙ placed.item_addr _ (ok.item_ids j h),
          )

    heads-kept :
        (j : ℕ)
        → j < 3
        → get_or (found_ptrs f db txm) j 0 ≡ get_or (head_ptrs f db txm.params txm.cown_ptrs) j 0
    unfolding found_ptrs
    heads-kept j h =
        let heads = head_ptrs f db txm.params txm.cown_ptrs in
        let n = param txm.params 50 in
        let stocks = fill_ptrs (stock_addr f db txm.params) 3 0 n heads in
        rw (ok.kind, found_ptrs)
          (fill_ptrs-outside (item_addr f db txm.params) 18 0 n stocks j (inl (omega arith))
            ∙ fill_ptrs-outside (stock_addr f db txm.params) 3 0 n heads j (inl (omega arith)))

  -- After the loader, a New Order whose ids lie in the tables acquires, once its cowns are prepared,
  -- exactly the rows that its parameters name: its warehouse, district and customer at their places in
  -- the arrays, and for each item the stock of the supplying warehouse and the item itself.
  pub behaviours-new_order :
      (txm : TpccTransactionMarshalled) (ok : IsNewOrder txm)
      → let ps = txm.params in
        let w = param ps 0 - 1 in
        let d = param ps 1 - 1 in
        let c = param ps 2 - 1 in
        behaviours false (record txm { cown_ptrs = found_ptrs f db txm })
        ≡ Behaviour.new_order
            (arrays.warehouse + 1024 * w)
            (arrays.district + 1024 * (w * 10 + d))
            (arrays.customer + 2048 * (w * 30_000 + d * 3000 + c))
            (pairs
              (λ j.
                arrays.stock + 1024 * ((param ps (20 + j) - 1) * 100_000 + (param ps (5 + j) - 1)))
              (λ j. arrays.item + 1024 * (param ps (5 + j) - 1))
              0
              (param ps 50))
            ps
          ∷ []
  unfolding behaviours when_split
  behaviours-new_order txm ok =
      let ptrs = found_ptrs f db txm in
      let (size, hw, hd, hc) = heads-found txm ok in
      let ew = heads-kept txm ok 0 (omega arith) ∙ hw in
      let ed = heads-kept txm ok 1 (omega arith) ∙ hd in
      let ec = heads-kept txm ok 2 (omega arith) ∙ hc in
      let lines =
        get_cown_ptrs-pairs ptrs (stock_place txm ok) (item_place txm ok) 0 (param txm.params 50)
          (λ j low high. lines-found txm ok j (omega arith)) in
      let enough : leb 1 (param txm.params 50) ≡ true = ground (arith, ok.item_number) in
      let few : leb (param txm.params 50) 15 ≡ true = ground (arith, ok.item_number) in
      rw (ew, ed, ec, lines, ok.kind, enough, few) refl
