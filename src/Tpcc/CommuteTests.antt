-- ===== src/Tpcc/CommuteTests.antt =====
-- Behaviours of app/tpcc.cc that change places, at concrete rows.
use doradd_storage.Base.{ℕ, ◌≡◌, ◌≢◌, refl, List, [], ◌∷◌, arith, set}
use doradd_storage.Tpcc.Txn.{Behaviour, run_behaviours}
use doradd_storage.Tpcc.Tests.{floats, order_params}
use doradd_storage.Tpcc.RowTests.{rows}
use doradd_storage.Tpcc.Commute.{payment-commutes}
use doradd_storage.Tpcc.CommuteOrders.{run_behaviours-new_orders}

abbrev an_order : Behaviour
an_order = Behaviour.new_order 4096 8192 77 ((5, 6) ∷ []) order_params

districts_differ : ◌≢◌ {A = ℕ} 8192 9216
districts_differ e = absurd (omega arith)

-- Both on the same warehouse.
payment-commutes_example :
    (run_behaviours floats 0 [] (Behaviour.payment_split 9216 88 order_params ∷ an_order ∷ []) rows
      ≡ run_behaviours floats 0 []
          (an_order ∷ Behaviour.payment_split 9216 88 order_params ∷ [])
          rows)
    × (run_behaviours floats 0 []
          (Behaviour.payment_all 4096 9216 88 order_params ∷ an_order ∷ [])
          rows
        ≡ run_behaviours floats 0 []
            (an_order ∷ Behaviour.payment_all 4096 9216 88 order_params ∷ [])
            rows)
payment-commutes_example =
    payment-commutes floats 0 [] 4096 9216 88 order_params an_order rows districts_differ

-- The same order of another customer, in district 4.
abbrev other_params : List ℕ
other_params = set order_params 1 4

run_behaviours-new_orders_example :
    (run_behaviours floats 0 []
        (Behaviour.new_order_split 8192 77 ((5, 6) ∷ []) order_params
          ∷ Behaviour.new_order_split 9216 88 ((7, 6) ∷ []) other_params
          ∷ [])
        rows
      ≡ run_behaviours floats 0 []
          (Behaviour.new_order_split 9216 88 ((7, 6) ∷ []) other_params
            ∷ Behaviour.new_order_split 8192 77 ((5, 6) ∷ []) order_params
            ∷ [])
          rows)
    × (run_behaviours floats 0 []
          (Behaviour.new_order 4096 8192 77 ((5, 6) ∷ []) order_params
            ∷ Behaviour.new_order 4096 9216 88 ((7, 6) ∷ []) other_params
            ∷ [])
          rows
        ≡ run_behaviours floats 0 []
            (Behaviour.new_order 4096 9216 88 ((7, 6) ∷ []) other_params
              ∷ Behaviour.new_order 4096 8192 77 ((5, 6) ∷ []) order_params
              ∷ [])
            rows)
run_behaviours-new_orders_example =
    run_behaviours-new_orders floats 0 [] 4096 4096 8192 9216 77 88 ((5, 6) ∷ []) ((7, 6) ∷ [])
      order_params other_params rows (λ e. absurd (omega arith))
      (refl, (omega arith, omega arith), omega arith, omega arith)
      (refl, (omega arith, omega arith), omega arith, omega arith) (λ e. absurd (omega arith))
      ((λ e. absurd (omega arith), tt), tt) (omega arith) (omega arith)
