-- ===== src/Tpcc/Stock.antt =====
-- The macro UPDATE_STOCK of app/tpcc.cc.
use doradd_storage.Base.{
  ℕ, dec_lt, ◌+◌, ◌-◌, ◌*◌, ◌≤◌, ◌<◌, ◌≡◌, List, [], ◌∷◌, Bool, arith, if◌then◌else◌, ltb, u64_mod,
  add64, sub64, All,
}
use doradd_storage.Tpcc.Entries.{Stock}

-- `s_quantity` is a `uint64_t`: a subtraction below 0 wraps before the comparison.
unfoldable pub restock : ℕ → ℕ
restock quantity = if ltb quantity 10 then add64 quantity 91 else quantity

-- The amount that is ordered is a `uint32_t`; `remote` is the test `params[51] == 1`.
unfoldable pub update_stock : ℕ → Bool → Stock → Stock
update_stock qty remote s = record s {
  s_quantity = restock (sub64 s.s_quantity qty);
  s_ytd = add64 s.s_ytd qty;
  s_order_cnt = add64 s.s_order_cnt 1;
  s_remote_cnt = if remote then add64 s.s_remote_cnt 1 else s.s_remote_cnt;
}

-- The orders of a list, one after the other, on the same row.
abbrev pub update_stocks : List (ℕ × Bool) → Stock → Stock
update_stocks [] s = s
update_stocks (o ∷ os) s = update_stocks os (update_stock o.0 o.1 s)

abbrev pub ordered : List (ℕ × Bool) → ℕ
ordered [] = 0
ordered (o ∷ os) = o.0 + ordered os

-- What the loader gives a row and TPC-C asks of it.
abbrev pub InStock : Stock → Type 0
InStock s = (10 ≤ s.s_quantity) × (s.s_quantity ≤ 100)

update_stock-InStock :
    (qty : ℕ) (remote : Bool) (s : Stock)
    → InStock s
    → qty ≤ 10
    → s.s_ytd + qty < u64_mod
    → InStock (update_stock qty remote s)
      × ((update_stock qty remote s).s_ytd ≡ s.s_ytd + qty)
      × ((k : ℕ) × ((update_stock qty remote s).s_quantity + qty ≡ s.s_quantity + 91 * k))
unfolding update_stock restock
update_stock-InStock qty remote s h small fits = elim (dec_lt (s.s_quantity - qty) 10) [
  | yes p ↦ (ground arith, ground arith, (1, ground arith))
  | no p ↦ (ground arith, ground arith, (0, ground arith))
]

-- Any number of orders of at most ten pieces keep the quantity between 10 and 100. The year's total
-- grows by what was ordered, and the quantity shrinks by it up to the refills of 91 pieces each.
pub update_stocks-InStock :
    (os : List (ℕ × Bool)) (s : Stock)
    → InStock s
    → All (λ o. o.0 ≤ 10) os
    → s.s_ytd + ordered os < u64_mod
    → InStock (update_stocks os s)
      × ((update_stocks os s).s_ytd ≡ s.s_ytd + ordered os)
      × ((k : ℕ) × ((update_stocks os s).s_quantity + ordered os ≡ s.s_quantity + 91 * k))
update_stocks-InStock [] s h small fits = (h, omega arith, (0, omega arith))
update_stocks-InStock (o ∷ os) s h small fits =
    let (h', ytd, (k, q)) = update_stock-InStock o.0 o.1 s h small.0 (omega arith) in
    let (h'', ytd', (k', q')) =
      update_stocks-InStock os (update_stock o.0 o.1 s) h' small.1 (omega arith) in
    (h'', omega arith, (k + k', omega arith))
