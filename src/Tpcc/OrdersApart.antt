-- ===== src/Tpcc/OrdersApart.antt =====
-- The steps of two new orders of app/tpcc.cc on different districts write different rows and slots.
use doradd_storage.Base.{
  ℕ, ◌+◌, ◌-◌, ◌*◌, ◌==◌, ◌≤◌, ◌<◌, ◌≡◌, ◌≢◌, List, [], ◌∷◌, All, All-append, none, arith, length,
}
use doradd_storage.Tables.{Cown}
use doradd_storage.Tpcc.{orders_per_district}
use doradd_storage.Tpcc.Rows.{Floats}
use doradd_storage.Tpcc.Stock.{update_stock}
use doradd_storage.Tpcc.Keys.{InRange}
use doradd_storage.Tpcc.Entries.{Item, Stock, Order, NewOrder, OrderLine, new_order_row_key}
use doradd_storage.Tpcc.NewOrder.{param, order_of, new_order_of}
use doradd_storage.Tpcc.Pieces.{Piece, take, stocked, lined, ordered, new_ordered, counting, Apart}
use doradd_storage.Tpcc.OrderPieces.{
  line_slot, line_of, line_pieces, end_pieces, pieces, IsOrderly, key_of, key_of-value,
  new_key-value, line_slot-value,
}

All-every : {A : Type 0} (P : A → Type 0) (xs : List A) → ((x : A) → P x) → All P xs
All-every P [] h = tt
All-every P (x ∷ xs) h = (h x, All-every P xs h)

All-map :
    {A : Type 0} (P Q : A → Type 0) (xs : List A) → ((x : A) → P x → Q x) → All P xs → All Q xs
All-map P Q [] h ps = tt
All-map P Q (x ∷ xs) h (p, ps) = (h x p, All-map P Q xs h ps)

-- The slots of the lines of different districts.
slots_differ :
    (d d' o o' i i' k k' : ℕ)
    → d ≢ d'
    → 1 < o
    → o ≤ orders_per_district
    → 1 < o'
    → o' ≤ orders_per_district
    → InRange i 15
    → InRange i' 15
    → k + 31 + 15 * 13_680 ≡ 15 * (d * 13_680 + o) + i
    → k' + 31 + 15 * 13_680 ≡ 15 * (d' * 13_680 + o') + i'
    → k ≢ k'
slots_differ d d' o o' i i' k k' apart low high low' high' hi hi' e e' same = omega arith

-- The stocks of two orders are different.
abbrev pub StocksApart : List (ℕ × ℕ) → List (ℕ × ℕ) → Type 0
StocksApart lines lines' = All (λ l. All (λ l'. l.0 ≢ l'.0) lines') lines

module _ (f : Floats) (junk : ℕ) (junk_text : List ℕ) where
  -- What it takes for a step to be apart from each step of an order.
  record Clear (p : Piece f) (params : List ℕ) (d : ℕ) (lines : List (ℕ × ℕ)) (oid : ℕ)
      : Type 0 where
    of_district : Apart f p (take d)
    of_stocks : All (λ l. (g : Stock → Stock) → Apart f p (stocked l.0 g)) lines
    of_lines :
        (i : ℕ) (c : (ℕ → Item f.Float) → Cown OrderLine)
        → InRange i 15
        → Apart f p (lined (line_slot params (key_of f junk junk_text params oid) i) c)
    of_end : All (Apart f p) (end_pieces f junk junk_text params oid)

  Clear-lines :
      (p : Piece f) (params : List ℕ) (d key index : ℕ) (lines : List (ℕ × ℕ))
      → All (λ l. (g : Stock → Stock) → Apart f p (stocked l.0 g)) lines
      → ((i : ℕ) (c : (ℕ → Item f.Float) → Cown OrderLine)
          → InRange i 15
          → Apart f p (lined (line_slot params key i) c))
      → 1 ≤ index
      → index + length lines ≤ 16
      → All (Apart f p) (line_pieces f junk junk_text params key index lines)
  Clear-lines p params d key index [] hs hl low high = tt
  Clear-lines p params d key index (l ∷ lines) (h, hs) hl low high = (
    h _,
    (
      hl index _ (low, omega arith),
      Clear-lines p params d key (index + 1) lines hs hl (omega arith) (omega arith),
    ),
  )

  Clear-pieces :
      (p : Piece f) (params : List ℕ) (d : ℕ) (lines : List (ℕ × ℕ)) (oid : ℕ)
      → length lines ≤ 15
      → Clear p params d lines oid
      → All (Apart f p) (pieces f junk junk_text params d lines oid)
  Clear-pieces p params d lines oid few c = (
    c.of_district,
    All-append (Apart f p)
        (line_pieces f junk junk_text params (key_of f junk junk_text params oid) 1 lines)
        (end_pieces f junk junk_text params oid)
        (Clear-lines p params d (key_of f junk junk_text params oid) 1 lines c.of_stocks c.of_lines
          (omega arith) (omega arith))
        c.of_end,
  )

  module _ (params params' : List ℕ) (d d' : ℕ) (lines lines' : List (ℕ × ℕ)) (oid oid' : ℕ)
      (districts : d ≢ d') (orderly : IsOrderly params oid) (orderly' : IsOrderly params' oid')
      (ids : param params 1 ≢ param params' 1) (stocks : StocksApart lines lines')
      (few : length lines ≤ 15) (few' : length lines' ≤ 15) where
    take-Clear : Clear (take d) params' d' lines' oid'
    take-Clear = record {
      of_district = districts;
      of_stocks = All-every _ lines' (λ l g. tt);
      of_lines = λ i c h. tt;
      of_end = (tt, (tt, (tt, tt)));
    }

    stocked-Clear :
        (s : ℕ) (g : Stock → Stock)
        → All (λ l'. s ≢ l'.0) lines'
        → Clear (stocked s g) params' d' lines' oid'
    stocked-Clear s g h = record {
      of_district = tt;
      of_stocks = All-map _ _ lines' (λ l differ g'. differ) h;
      of_lines = λ i c h. tt;
      of_end = (tt, (tt, (tt, tt)));
    }

    lined-Clear :
        (i : ℕ) (c : (ℕ → Item f.Float) → Cown OrderLine)
        → InRange i 15
        → Clear
            (lined (line_slot params (key_of f junk junk_text params oid) i) c)
            params'
            d'
            lines'
            oid'
    lined-Clear i c hi = record {
      of_district = tt;
      of_stocks = All-every _ lines' (λ l g. tt);
      of_lines = λ i' c' hi' same.
          let e = line_slot-value f junk junk_text params oid i orderly hi in
          let e' = line_slot-value f junk junk_text params' oid' i' orderly' hi' in
          slots_differ (param params 1) (param params' 1) oid oid' i i' _ _ ids orderly.2 orderly.3
            orderly'.2 orderly'.3 hi hi' e e' same;
      of_end = (tt, (tt, (tt, tt)));
    }

    ordered-Clear :
        (c : Cown Order)
        → Clear (ordered (key_of f junk junk_text params oid) c) params' d' lines' oid'
    ordered-Clear c = record {
      of_district = tt;
      of_stocks = All-every _ lines' (λ l g. tt);
      of_lines = λ i c' h. tt;
      of_end = (
        λ same.
            let e = key_of-value f junk junk_text params oid orderly in
            let e' = key_of-value f junk junk_text params' oid' orderly' in
            let (w, hd, low, high) = orderly in
            let (w', hd', low', high') = orderly' in omega arith,
        (tt, (tt, tt)),
      );
    }

    new_ordered-Clear :
        (c : Cown NewOrder)
        → Clear
            (new_ordered (new_order_row_key (new_order_of f junk junk_text params oid)) c)
            params'
            d'
            lines'
            oid'
    new_ordered-Clear c = record {
      of_district = tt;
      of_stocks = All-every _ lines' (λ l g. tt);
      of_lines = λ i c' h. tt;
      of_end = (
        tt,
        (
          λ same.
              let e = new_key-value f junk junk_text params oid orderly in
              let e' = new_key-value f junk junk_text params' oid' orderly' in
              let (w, hd, low, high) = orderly in
              let (w', hd', low', high') = orderly' in omega arith,
          (tt, tt),
        ),
      );
    }

    counting-Clear : Clear counting params' d' lines' oid'
    counting-Clear = record {
      of_district = tt;
      of_stocks = All-every _ lines' (λ l g. tt);
      of_lines = λ i c h. tt;
      of_end = (tt, (tt, (tt, tt)));
    }

    Clear-Apart :
        (p : Piece f)
        → Clear p params' d' lines' oid'
        → All (Apart f p) (pieces f junk junk_text params' d' lines' oid')
    Clear-Apart p c = Clear-pieces p params' d' lines' oid' few' c

    lines-Apart :
        (index : ℕ) (ls : List (ℕ × ℕ))
        → StocksApart ls lines'
        → 1 ≤ index
        → index + length ls ≤ 16
        → All
            (λ p. All (Apart f p) (pieces f junk junk_text params' d' lines' oid'))
            (line_pieces f junk junk_text params (key_of f junk junk_text params oid) index ls)
    lines-Apart index [] h low high = tt
    lines-Apart index (l ∷ ls) (h, hs) low high = (
      Clear-Apart _ (
          stocked-Clear l.0 (update_stock (param params (35 + (index - 1))) (param params 51 == 1))
            h),
      (
        Clear-Apart _ (
            lined-Clear index
              (line_of f junk junk_text params (key_of f junk junk_text params oid) index l.1)
              (low, omega arith)),
        lines-Apart (index + 1) ls hs (omega arith) (omega arith),
      ),
    )

    -- Each step of the one order is apart from each of the other.
    pub pieces-Apart :
        All
          (λ p. All (Apart f p) (pieces f junk junk_text params' d' lines' oid'))
          (pieces f junk junk_text params d lines oid)
    pieces-Apart = (
      Clear-Apart _ take-Clear,
      All-append _
          (line_pieces f junk junk_text params (key_of f junk junk_text params oid) 1 lines)
          (end_pieces f junk junk_text params oid)
          (lines-Apart 1 lines stocks (omega arith) (omega arith))
          (
            Clear-Apart _ (
                ordered-Clear
                  (record { placed = none; content = order_of f junk junk_text params oid })),
            (
              Clear-Apart _ (
                  new_ordered-Clear
                    (record { placed = none; content = new_order_of f junk junk_text params oid })),
              (Clear-Apart _ counting-Clear, tt),
            ),
          ),
    )
