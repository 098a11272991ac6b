-- ===== src/Tpcc/CommuteOrders.antt =====
-- Two new orders of app/tpcc.cc on different districts may change places.
use doradd_storage.Base.{
  ℕ, ◌+◌, ◌≤◌, ◌≡◌, ◌≢◌, refl, ap, sym, ◌∙◌, List, [], ◌∷◌, All, All-append, Option, none, some,
  length,
}
use doradd_storage.Tpcc.Partial.{bind, bind-ext}
use doradd_storage.Tpcc.Entries.{District}
use doradd_storage.Tpcc.Rows.{Floats, Rows, warehouse_op}
use doradd_storage.Tpcc.Beside.{after}
use doradd_storage.Tpcc.Split.{warehouse_op-commutes, new_order_rest-after}
use doradd_storage.Tpcc.NewOrder.{param, new_order_rest}
use doradd_storage.Tpcc.Txn.{Behaviour, run_behaviour, run_behaviours}
use doradd_storage.Tpcc.Pieces.{take, Apart}
use doradd_storage.Tpcc.PieceLists.{
  perform_all, perform_all-Commute, perform_all-districts, bind-some,
}
use doradd_storage.Tpcc.OrderPieces.{
  line_pieces, end_pieces, pieces, new_order_rest-pieces, IsOrderly, key_of, elim-bind,
}
use doradd_storage.Tpcc.OrdersApart.{StocksApart, pieces-Apart}

module _ (f : Floats) (junk : ℕ) (junk_text : List ℕ) where
  -- The order that a district gives out next.
  abbrev pub next_order : Rows f → ℕ → ℕ
  next_order r d = (r.districts d).d_next_o_id

  lines-district :
      (params : List ℕ) (d key index : ℕ) (lines : List (ℕ × ℕ))
      → All (λ p. Apart f p (take d)) (line_pieces f junk junk_text params key index lines)
  lines-district params d key index [] = tt
  lines-district params d key index (l ∷ lines) =
      (tt, (tt, lines-district params d key (index + 1) lines))

  pieces-district :
      (params : List ℕ) (d d' oid : ℕ) (lines : List (ℕ × ℕ))
      → d ≢ d'
      → All (λ p. Apart f p (take d')) (pieces f junk junk_text params d lines oid)
  pieces-district params d d' oid lines apart = (
    apart,
    All-append (λ p. Apart f p (take d'))
        (line_pieces f junk junk_text params (key_of f junk junk_text params oid) 1 lines)
        (end_pieces f junk junk_text params oid)
        (lines-district params d' (key_of f junk junk_text params oid) 1 lines)
        (tt, (tt, (tt, tt))),
  )

  -- The second of two orders takes the number that its district has before the first.
  in_pieces :
      (params params' : List ℕ) (d d' : ℕ) (lines lines' : List (ℕ × ℕ)) (r : Rows f)
      → d ≢ d'
      → bind
          (new_order_rest f junk junk_text params d lines r)
          (new_order_rest f junk junk_text params' d' lines')
        ≡ bind
            (perform_all f (pieces f junk junk_text params d lines (next_order r d)) r)
            (perform_all f (pieces f junk junk_text params' d' lines' (next_order r d')))
  in_pieces params params' d d' lines lines' r apart =
      ap (λ x. bind x (new_order_rest f junk junk_text params' d' lines'))
        (new_order_rest-pieces f junk junk_text params d lines r)
      ∙ bind-ext (perform_all f (pieces f junk junk_text params d lines (next_order r d)) r)
          (new_order_rest f junk junk_text params' d' lines')
          (perform_all f (pieces f junk junk_text params' d' lines' (next_order r d')))
          (λ r' e.
            new_order_rest-pieces f junk junk_text params' d' lines' r'
            ∙ ap
                (λ (row : District f.Float).
                  perform_all f (pieces f junk junk_text params' d' lines' row.d_next_o_id) r')
                (perform_all-districts f (pieces f junk junk_text params d lines (next_order r d))
                  d' r r' (pieces-district params d d' (next_order r d) lines apart) e))

  new_orders-Commute :
      (params params' : List ℕ) (d d' : ℕ) (lines lines' : List (ℕ × ℕ)) (r : Rows f)
      → d ≢ d'
      → IsOrderly params (next_order r d)
      → IsOrderly params' (next_order r d')
      → param params 1 ≢ param params' 1
      → StocksApart lines lines'
      → length lines ≤ 15
      → length lines' ≤ 15
      → bind
          (new_order_rest f junk junk_text params d lines r)
          (new_order_rest f junk junk_text params' d' lines')
        ≡ bind
            (new_order_rest f junk junk_text params' d' lines' r)
            (new_order_rest f junk junk_text params d lines)
  new_orders-Commute params params' d d' lines lines' r apart h h' ids stocks few few' =
      in_pieces params params' d d' lines lines' r apart
      ∙ perform_all-Commute f (pieces f junk junk_text params d lines (next_order r d))
          (pieces f junk junk_text params' d' lines' (next_order r d'))
          (pieces-Apart f junk junk_text params params' d d' lines lines' (next_order r d)
            (next_order r d') apart h h' ids stocks few few')
          r
      ∙ sym (in_pieces params' params d' d lines' lines r (λ e. apart (sym e)))

  bind-after :
      (op : Rows f → Rows f) (x : Option (Rows f)) (u : Rows f → Option (Rows f))
      → bind x (λ r. u (op r)) ≡ bind (after op x) u
  bind-after op none u = refl
  bind-after op (some r) u = refl

  -- Two orders with their warehouses, from one into the other form.
  both_warehouses :
      (w w' h h' d d' : ℕ) (lines lines' : List (ℕ × ℕ)) (params params' : List ℕ) (r : Rows f)
      → bind
          (new_order_rest f junk junk_text params d lines (warehouse_op f w h r))
          (λ r'. new_order_rest f junk junk_text params' d' lines' (warehouse_op f w' h' r'))
        ≡ bind
            (new_order_rest f junk junk_text params d lines
              (warehouse_op f w' h' (warehouse_op f w h r)))
            (new_order_rest f junk junk_text params' d' lines')
  both_warehouses w w' h h' d d' lines lines' params params' r =
      let second = new_order_rest f junk junk_text params' d' lines' in
      bind-after (warehouse_op f w' h')
        (new_order_rest f junk junk_text params d lines (warehouse_op f w h r)) second
      ∙ ap (λ x. bind x second)
          (sym (new_order_rest-after f junk junk_text params d lines w' h' (warehouse_op f w h r)))

  one_after :
      (b b' : Behaviour) (r : Rows f)
      → run_behaviours f junk junk_text (b ∷ b' ∷ []) r
        ≡ bind (run_behaviour f junk junk_text b r) (run_behaviour f junk junk_text b')
  unfolding run_behaviours
  one_after b b' r =
      let last : Rows f → Option (Rows f) =
        λ r'. elim (run_behaviour f junk junk_text b' r') [ none ↦ none | some r'' ↦ some r'' ] in
      elim-bind f junk junk_text (run_behaviour f junk junk_text b r) last
      ∙ bind-ext (run_behaviour f junk junk_text b r) last (run_behaviour f junk junk_text b')
          (λ r' e.
            elim-bind f junk junk_text (run_behaviour f junk junk_text b' r') some
            ∙ bind-some f (run_behaviour f junk junk_text b' r'))

  -- Two new orders on different districts and different stocks, in either build, may change places,
  -- though both insert into the same three tables: the rows and the tables are the same, and so are the
  -- exceptions. The districts exist, neither gives out its first number or one for which the tables have
  -- no slot, and an order has at most 15 lines.
  pub run_behaviours-new_orders :
      (w w' d d' c c' : ℕ) (lines lines' : List (ℕ × ℕ)) (params params' : List ℕ) (r : Rows f)
      → d ≢ d'
      → IsOrderly params (next_order r d)
      → IsOrderly params' (next_order r d')
      → param params 1 ≢ param params' 1
      → StocksApart lines lines'
      → length lines ≤ 15
      → length lines' ≤ 15
      → (run_behaviours f junk junk_text
            (Behaviour.new_order_split d c lines params
              ∷ Behaviour.new_order_split d' c' lines' params'
              ∷ [])
            r
          ≡ run_behaviours f junk junk_text
              (Behaviour.new_order_split d' c' lines' params'
                ∷ Behaviour.new_order_split d c lines params
                ∷ [])
              r)
        × (run_behaviours f junk junk_text
              (Behaviour.new_order w d c lines params
                ∷ Behaviour.new_order w' d' c' lines' params'
                ∷ [])
              r
            ≡ run_behaviours f junk junk_text
                (Behaviour.new_order w' d' c' lines' params'
                  ∷ Behaviour.new_order w d c lines params
                  ∷ [])
                r)
  unfolding run_behaviour warehouse_op
  run_behaviours-new_orders w w' d d' c c' lines lines' params params' r apart h h' ids stocks few
        few' =
      let a = param params 52 in
      let a' = param params' 52 in
      let at : (r0 : Rows f)
          → next_order r0 d ≡ next_order r d
          → next_order r0 d' ≡ next_order r d'
          → bind (new_order_rest f junk junk_text params d lines r0)
              (new_order_rest f junk junk_text params' d' lines')
            ≡ bind (new_order_rest f junk junk_text params' d' lines' r0)
                (new_order_rest f junk junk_text params d lines) =
        λ r0 e e'.
          new_orders-Commute params params' d d' lines lines' r0 apart (rw e h) (rw e' h') ids
            stocks few few' in
      (
        one_after _ _ r ∙ at r refl refl ∙ sym (one_after _ _ r),
        one_after _ _ r
            ∙ both_warehouses w w' a a' d d' lines lines' params params' r
            ∙ at (warehouse_op f w' a' (warehouse_op f w a r)) refl refl
            ∙ ap
                (λ r0.
                  bind (new_order_rest f junk junk_text params' d' lines' r0)
                    (new_order_rest f junk junk_text params d lines))
                (warehouse_op-commutes f junk junk_text w' a' w a r)
            ∙ sym (both_warehouses w' w a' a d' d lines' lines params' params r)
            ∙ sym (one_after _ _ r),
      )
