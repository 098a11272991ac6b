-- ===== src/Tpcc/Commute.antt =====
-- Which behaviours of app/tpcc.cc may change places with a payment.
use doradd_storage.Base.{
  ℕ, ◌+◌, ◌≡◌, ◌≢◌, refl, ap, ap₂, sym, ◌∙◌, List, [], ◌∷◌, Option, none, some, arith, add64,
}
use mathlib.Core.Path.{fun_ext}
use doradd_storage.Tpcc.Beside.{IsBeside, after, new_order_rest-op}
use doradd_storage.Tpcc.Rows.{Floats, Rows, update, warehouse_op}
use doradd_storage.Tpcc.Entries.{Customer}
use doradd_storage.Tpcc.NewOrder.{param, new_order_rest, take_order_id}
use doradd_storage.Tpcc.Payment.{payment_rest}
use doradd_storage.Tpcc.Txn.{Behaviour, run_behaviour, run_behaviours}
use doradd_storage.Tpcc.Split.{warehouse_op-commutes, payment_rest-op, new_order_rest-after}

-- A behaviour that acquires neither the district nor, for a payment, the customer.
abbrev pub Avoids : ℕ → ℕ → Behaviour → Type 0
Avoids d c (Behaviour.add_to_warehouse w h) = Unit
Avoids d c (Behaviour.new_order w d' c' lines params) = d' ≢ d
Avoids d c (Behaviour.new_order_split d' c' lines params) = d' ≢ d
Avoids d c (Behaviour.payment_all w d' c' params) = (d' ≢ d) × (c' ≢ c)
Avoids d c (Behaviour.payment_split d' c' params) = (d' ≢ d) × (c' ≢ c)

-- Changes of two rows that are not the same.
pub two_updates :
    {T : Type 0} (a b : ℕ) (f g : T → T) (rows : ℕ → T) (x : ℕ)
    → a ≢ b
    → update a (f (update b (g (rows b)) rows a)) (update b (g (rows b)) rows) x
      ≡ update b (g (update a (f (rows a)) rows b)) (update a (f (rows a)) rows) x
two_updates a b f g rows x apart = ground arith

module _ (f : Floats) (junk : ℕ) (junk_text : List ℕ) where
  -- What a payment does to the row of its customer.
  abbrev paid_by : ℕ → Customer f.Float → Customer f.Float
  paid_by h row = record row {
    c_balance = f.minus row.c_balance h;
    c_ytd_payment = add64 row.c_ytd_payment h;
    c_payment_cnt = add64 row.c_payment_cnt 1;
  }

  payment_rest-IsBeside : (d c h : ℕ) → IsBeside f (payment_rest f d c h)
  unfolding payment_rest
  payment_rest-IsBeside d c h = record {
    same_items = λ r. refl;
    same_stocks = λ r. refl;
    same_lines = λ r. refl;
    same_orders = λ r. refl;
    same_new_orders = λ r. refl;
    any_stocks = λ s r. refl;
    any_lines = λ t r. refl;
    any_orders = λ t t' r. refl;
  }

  payment_rest-district :
      (d d' c h : ℕ) (r : Rows f) → d' ≢ d → (payment_rest f d c h r).districts d' ≡ r.districts d'
  unfolding payment_rest
  payment_rest-district d d' c h r apart = ground arith

  payment_rest-take_order_id :
      (d d' c h : ℕ) (r : Rows f)
      → d' ≢ d
      → take_order_id f junk junk_text d' (payment_rest f d c h r)
        ≡ payment_rest f d c h (take_order_id f junk junk_text d' r)
  unfolding payment_rest take_order_id
  payment_rest-take_order_id d d' c h r apart =
      ap (λ ds. record (payment_rest f d c h r) { districts = ds })
        (fun_ext (λ x.
          two_updates d' d (λ row. record row { d_next_o_id = add64 row.d_next_o_id 1 })
            (λ row. record row { d_ytd = add64 row.d_ytd h }) r.districts x apart))

  payment_rest-commutes :
      (d d' c c' h h' : ℕ) (r : Rows f)
      → d' ≢ d
      → c' ≢ c
      → payment_rest f d' c' h' (payment_rest f d c h r)
        ≡ payment_rest f d c h (payment_rest f d' c' h' r)
  unfolding payment_rest
  payment_rest-commutes d d' c c' h h' r apart apart' =
      ap₂ (λ ds cs. record r { districts = ds; customers = cs; counted = r.counted + 1 + 1 })
        (fun_ext (λ x.
          two_updates d' d (λ row. record row { d_ytd = add64 row.d_ytd h' })
            (λ row. record row { d_ytd = add64 row.d_ytd h }) r.districts x apart))
        (fun_ext (λ x. two_updates c' c (paid_by h') (paid_by h) r.customers x apart'))

  new_order_rest-payment :
      (d d' c h : ℕ) (lines : List (ℕ × ℕ)) (params : List ℕ) (r : Rows f)
      → d' ≢ d
      → new_order_rest f junk junk_text params d' lines (payment_rest f d c h r)
        ≡ after (payment_rest f d c h) (new_order_rest f junk junk_text params d' lines r)
  new_order_rest-payment d d' c h lines params r apart =
      new_order_rest-op f junk junk_text (payment_rest f d c h) (payment_rest-IsBeside d c h) params
        d' lines r (payment_rest-district d d' c h r apart)
        (payment_rest-take_order_id d d' c h r apart)

  run_behaviour-payment :
      (d c h : ℕ) (b : Behaviour) (r : Rows f)
      → Avoids d c b
      → run_behaviour f junk junk_text b (payment_rest f d c h r)
        ≡ after (payment_rest f d c h) (run_behaviour f junk junk_text b r)
  unfolding run_behaviour
  run_behaviour-payment d c h (Behaviour.add_to_warehouse w' h') r apart =
      ap some (sym (payment_rest-op f junk junk_text d c h w' h' r))
  run_behaviour-payment d c h (Behaviour.new_order w' d' c' lines params) r apart =
      ap (new_order_rest f junk junk_text params d' lines)
        (sym (payment_rest-op f junk junk_text d c h w' (param params 52) r))
      ∙ new_order_rest-payment d d' c h lines params (warehouse_op f w' (param params 52) r) apart
  run_behaviour-payment d c h (Behaviour.new_order_split d' c' lines params) r apart =
      new_order_rest-payment d d' c h lines params r apart
  run_behaviour-payment d c h (Behaviour.payment_all w' d' c' params) r (apart, apart') =
      let a = param params 52 in
      ap (λ r0. some (payment_rest f d' c' a r0))
        (sym (payment_rest-op f junk junk_text d c h w' a r))
      ∙ ap some (payment_rest-commutes d d' c c' h a (warehouse_op f w' a r) apart apart')
  run_behaviour-payment d c h (Behaviour.payment_split d' c' params) r (apart, apart') =
      ap some (payment_rest-commutes d d' c c' h (param params 52) r apart apart')

  run_behaviour-warehouse_op :
      (w h : ℕ) (b : Behaviour) (r : Rows f)
      → run_behaviour f junk junk_text b (warehouse_op f w h r)
        ≡ after (warehouse_op f w h) (run_behaviour f junk junk_text b r)
  unfolding run_behaviour
  run_behaviour-warehouse_op w h (Behaviour.add_to_warehouse w' h') r =
      ap some (warehouse_op-commutes f junk junk_text w' h' w h r)
  run_behaviour-warehouse_op w h (Behaviour.new_order w' d' c' lines params) r =
      ap (new_order_rest f junk junk_text params d' lines)
        (warehouse_op-commutes f junk junk_text w' (param params 52) w h r)
      ∙ new_order_rest-after f junk junk_text params d' lines w h
          (warehouse_op f w' (param params 52) r)
  run_behaviour-warehouse_op w h (Behaviour.new_order_split d' c' lines params) r =
      new_order_rest-after f junk junk_text params d' lines w h r
  run_behaviour-warehouse_op w h (Behaviour.payment_all w' d' c' params) r =
      let a = param params 52 in
      ap (λ r0. some (payment_rest f d' c' a r0))
        (warehouse_op-commutes f junk junk_text w' a w h r)
      ∙ ap some (payment_rest-op f junk junk_text d' c' a w h (warehouse_op f w' a r))
  run_behaviour-warehouse_op w h (Behaviour.payment_split d' c' params) r =
      ap some (payment_rest-op f junk junk_text d' c' (param params 52) w h r)

  split_last :
      (d c : ℕ) (params : List ℕ) (x : Option (Rows f))
      → (elim (after (payment_rest f d c (param params 52)) x) [ none ↦ none | some r ↦ some r ])
        ≡ (elim x [
          | none ↦ none
          | some r ↦ run_behaviours f junk junk_text (Behaviour.payment_split d c params ∷ []) r
        ])
  unfolding run_behaviours run_behaviour
  split_last d c params none = refl
  split_last d c params (some r) = refl

  all_last :
      (w d c : ℕ) (params : List ℕ) (x : Option (Rows f))
      → (elim (after
          (payment_rest f d c (param params 52))
          (after (warehouse_op f w (param params 52)) x)) [ none ↦ none | some r ↦ some r ])
        ≡ (elim x [
          | none ↦ none
          | some r ↦ run_behaviours f junk junk_text (Behaviour.payment_all w d c params ∷ []) r
        ])
  unfolding run_behaviours run_behaviour
  all_last w d c params none = refl
  all_last w d c params (some r) = refl

  -- A payment, in either build, may change places with any behaviour of any transaction that acquires
  -- another district and, if it is a payment, another customer: the rows are the same, and so are the
  -- exceptions. That both acquire the same warehouse makes no difference.
  pub payment-commutes :
      (w d c : ℕ) (params : List ℕ) (b : Behaviour) (r : Rows f)
      → Avoids d c b
      → (run_behaviours f junk junk_text (Behaviour.payment_split d c params ∷ b ∷ []) r
          ≡ run_behaviours f junk junk_text (b ∷ Behaviour.payment_split d c params ∷ []) r)
        × (run_behaviours f junk junk_text (Behaviour.payment_all w d c params ∷ b ∷ []) r
            ≡ run_behaviours f junk junk_text (b ∷ Behaviour.payment_all w d c params ∷ []) r)
  unfolding run_behaviours run_behaviour
  payment-commutes w d c params b r apart =
      let h = param params 52 in
      let last : Option (Rows f) → Option (Rows f) =
        λ x. elim x [ none ↦ none | some r' ↦ some r' ] in
      (
        ap last (run_behaviour-payment d c h b r apart)
            ∙ split_last d c params (run_behaviour f junk junk_text b r),
        ap last (
              run_behaviour-payment d c h b (warehouse_op f w h r) apart
              ∙ ap (after (payment_rest f d c h)) (run_behaviour-warehouse_op w h b r))
            ∙ all_last w d c params (run_behaviour f junk junk_text b r),
      )
