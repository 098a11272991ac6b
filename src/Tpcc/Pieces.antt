-- ===== src/Tpcc/Pieces.antt =====
-- The steps that a new order of app/tpcc.cc consists of, and which of them may change places.
use doradd_storage.Base.{
  ℕ, ◌+◌, ◌≡◌, ◌≢◌, refl, ap, sym, List, [], ◌∷◌, Option, none, some, arith, add64, set, zero, suc,
  dec_lt, ltb, if◌then◌else◌,
}
use mathlib.Core.Path.{fun_ext}
use doradd_storage.Tables.{Cown, put}
use doradd_storage.Tpcc.{tsize_order, tsize_new_order, tsize_order_line}
use doradd_storage.Tpcc.Partial.{followed, Commute}
use doradd_storage.Tpcc.Commute.{two_updates}
use doradd_storage.Tpcc.Rows.{Floats, Rows, update}
use doradd_storage.Tpcc.Entries.{District, OrderLine, Order, NewOrder, Stock, Item}

set-set_ne :
    {A : Type 0} (xs : List A) (i j : ℕ) (v w : A)
    → i ≢ j
    → set (set xs i v) j w ≡ set (set xs j w) i v
set-set_ne [] i j v w h = refl
set-set_ne (x ∷ xs) zero zero v w h = absurd (h refl)
set-set_ne (x ∷ xs) zero (suc j) v w h = refl
set-set_ne (x ∷ xs) (suc i) zero v w h = refl
set-set_ne (x ∷ xs) (suc i) (suc j) v w h =
    ap (λ l. x ∷ l) (set-set_ne xs i j v w (λ e. h (ap suc e)))

module _ (f : Floats) where
  -- The steps of a new order: the number that it takes from its district, the stock of a line, the
  -- line, the order, the entry among the new orders, the count.
  pub data Piece : Type 0 where
    take : ℕ → Piece
    stocked : ℕ → (Stock → Stock) → Piece
    lined : ℕ → ((ℕ → Item f.Float) → Cown OrderLine) → Piece
    ordered : ℕ → Cown Order → Piece
    new_ordered : ℕ → Cown NewOrder → Piece
    counting : Piece

  abbrev pub next_id : District f.Float → District f.Float
  next_id row = record row { d_next_o_id = add64 row.d_next_o_id 1 }

  abbrev pub perform : Piece → Rows f → Option (Rows f)
  perform (take d) r =
      some (record r { districts = update d (next_id (r.districts d)) r.districts })
  perform (stocked s g) r = some (record r { stocks = update s (g (r.stocks s)) r.stocks })
  perform (lined k c) r =
      if ltb r.order_line_table.cnt tsize_order_line
      then some (record r { order_line_table = put k (c r.items) r.order_line_table })
      else none
  perform (ordered k c) r =
      if ltb r.order_table.cnt tsize_order
      then some (record r { order_table = put k c r.order_table })
      else none
  perform (new_ordered k c) r =
      if ltb r.new_order_table.cnt tsize_new_order
      then some (record r { new_order_table = put k c r.new_order_table })
      else none
  perform counting r = some (record r { counted = r.counted + 1 })

  -- Steps that write different rows or slots.
  abbrev pub Apart : Piece → Piece → Type 0
  Apart (take d) (take d') = d ≢ d'
  Apart (take d) (stocked s' g') = Unit
  Apart (take d) (lined k' c') = Unit
  Apart (take d) (ordered k' c') = Unit
  Apart (take d) (new_ordered k' c') = Unit
  Apart (take d) counting = Unit
  Apart (stocked s g) (take d') = Unit
  Apart (stocked s g) (stocked s' g') = s ≢ s'
  Apart (stocked s g) (lined k' c') = Unit
  Apart (stocked s g) (ordered k' c') = Unit
  Apart (stocked s g) (new_ordered k' c') = Unit
  Apart (stocked s g) counting = Unit
  Apart (lined k c) (take d') = Unit
  Apart (lined k c) (stocked s' g') = Unit
  Apart (lined k c) (lined k' c') = k ≢ k'
  Apart (lined k c) (ordered k' c') = Unit
  Apart (lined k c) (new_ordered k' c') = Unit
  Apart (lined k c) counting = Unit
  Apart (ordered k c) (take d') = Unit
  Apart (ordered k c) (stocked s' g') = Unit
  Apart (ordered k c) (lined k' c') = Unit
  Apart (ordered k c) (ordered k' c') = k ≢ k'
  Apart (ordered k c) (new_ordered k' c') = Unit
  Apart (ordered k c) counting = Unit
  Apart (new_ordered k c) (take d') = Unit
  Apart (new_ordered k c) (stocked s' g') = Unit
  Apart (new_ordered k c) (lined k' c') = Unit
  Apart (new_ordered k c) (ordered k' c') = Unit
  Apart (new_ordered k c) (new_ordered k' c') = k ≢ k'
  Apart (new_ordered k c) counting = Unit
  Apart counting (take d') = Unit
  Apart counting (stocked s' g') = Unit
  Apart counting (lined k' c') = Unit
  Apart counting (ordered k' c') = Unit
  Apart counting (new_ordered k' c') = Unit
  Apart counting counting = Unit

  take-take :
      (d d' : ℕ) (r : Rows f)
      → d ≢ d'
      → followed (perform (take d)) (perform (take d')) r
        ≡ followed (perform (take d')) (perform (take d)) r
  take-take d d' r apart =
      ap (λ ds. some (record r { districts = ds }))
        (fun_ext (λ x. sym (two_updates d d' next_id next_id r.districts x apart)))

  stock-stock :
      (s s' : ℕ) (g g' : Stock → Stock) (r : Rows f)
      → s ≢ s'
      → followed (perform (stocked s g)) (perform (stocked s' g')) r
        ≡ followed (perform (stocked s' g')) (perform (stocked s g)) r
  stock-stock s s' g g' r apart =
      ap (λ ss. some (record r { stocks = ss }))
        (fun_ext (λ x. sym (two_updates s s' g g' r.stocks x apart)))

  line-line :
      (k k' : ℕ) (c c' : (ℕ → Item f.Float) → Cown OrderLine) (r : Rows f)
      → k ≢ k'
      → followed (perform (lined k c)) (perform (lined k' c')) r
        ≡ followed (perform (lined k' c')) (perform (lined k c)) r
  line-line k k' c c' r apart =
      let maps =
        set-set_ne r.order_line_table.map k k' (some (c r.items)) (some (c' r.items)) apart in
      elim (dec_lt r.order_line_table.cnt tsize_order_line) [
        | no full ↦ ground arith
        | yes room ↦ elim (dec_lt (r.order_line_table.cnt + 1) tsize_order_line) [
          | no last ↦ ground arith
          | yes more ↦ ground (arith, maps)
        ]
      ]

  order-order :
      (k k' : ℕ) (c c' : Cown Order) (r : Rows f)
      → k ≢ k'
      → followed (perform (ordered k c)) (perform (ordered k' c')) r
        ≡ followed (perform (ordered k' c')) (perform (ordered k c)) r
  order-order k k' c c' r apart =
      let maps = set-set_ne r.order_table.map k k' (some c) (some c') apart in
      elim (dec_lt r.order_table.cnt tsize_order) [
        | no full ↦ ground arith
        | yes room ↦ elim (dec_lt (r.order_table.cnt + 1) tsize_order) [
          | no last ↦ ground arith
          | yes more ↦ ground (arith, maps)
        ]
      ]

  new_order-new_order :
      (k k' : ℕ) (c c' : Cown NewOrder) (r : Rows f)
      → k ≢ k'
      → followed (perform (new_ordered k c)) (perform (new_ordered k' c')) r
        ≡ followed (perform (new_ordered k' c')) (perform (new_ordered k c)) r
  new_order-new_order k k' c c' r apart =
      let maps = set-set_ne r.new_order_table.map k k' (some c) (some c') apart in
      elim (dec_lt r.new_order_table.cnt tsize_new_order) [
        | no full ↦ ground arith
        | yes room ↦ elim (dec_lt (r.new_order_table.cnt + 1) tsize_new_order) [
          | no last ↦ ground arith
          | yes more ↦ ground (arith, maps)
        ]
      ]

  pub perform-Commute : (p q : Piece) → Apart p q → Commute (perform p) (perform q)
  perform-Commute (take d) (take d') h r = take-take d d' r h
  perform-Commute (take d) (stocked s' g') h r = ground arith
  perform-Commute (take d) (lined k' c') h r = ground arith
  perform-Commute (take d) (ordered k' c') h r = ground arith
  perform-Commute (take d) (new_ordered k' c') h r = ground arith
  perform-Commute (take d) counting h r = ground arith
  perform-Commute (stocked s g) (take d') h r = ground arith
  perform-Commute (stocked s g) (stocked s' g') h r = stock-stock s s' g g' r h
  perform-Commute (stocked s g) (lined k' c') h r = ground arith
  perform-Commute (stocked s g) (ordered k' c') h r = ground arith
  perform-Commute (stocked s g) (new_ordered k' c') h r = ground arith
  perform-Commute (stocked s g) counting h r = ground arith
  perform-Commute (lined k c) (take d') h r = ground arith
  perform-Commute (lined k c) (stocked s' g') h r = ground arith
  perform-Commute (lined k c) (lined k' c') h r = line-line k k' c c' r h
  perform-Commute (lined k c) (ordered k' c') h r = ground arith
  perform-Commute (lined k c) (new_ordered k' c') h r = ground arith
  perform-Commute (lined k c) counting h r = ground arith
  perform-Commute (ordered k c) (take d') h r = ground arith
  perform-Commute (ordered k c) (stocked s' g') h r = ground arith
  perform-Commute (ordered k c) (lined k' c') h r = ground arith
  perform-Commute (ordered k c) (ordered k' c') h r = order-order k k' c c' r h
  perform-Commute (ordered k c) (new_ordered k' c') h r = ground arith
  perform-Commute (ordered k c) counting h r = ground arith
  perform-Commute (new_ordered k c) (take d') h r = ground arith
  perform-Commute (new_ordered k c) (stocked s' g') h r = ground arith
  perform-Commute (new_ordered k c) (lined k' c') h r = ground arith
  perform-Commute (new_ordered k c) (ordered k' c') h r = ground arith
  perform-Commute (new_ordered k c) (new_ordered k' c') h r = new_order-new_order k k' c c' r h
  perform-Commute (new_ordered k c) counting h r = ground arith
  perform-Commute counting (take d') h r = ground arith
  perform-Commute counting (stocked s' g') h r = ground arith
  perform-Commute counting (lined k' c') h r = ground arith
  perform-Commute counting (ordered k' c') h r = ground arith
  perform-Commute counting (new_ordered k' c') h r = ground arith
  perform-Commute counting counting h r = refl
