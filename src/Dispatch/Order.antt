-- ===== src/Dispatch/Order.antt =====
-- The schedule of `FileDispatcher` as a sequence of entry numbers.
use doradd_storage.Base.{
  ℕ, zero, suc, ◌+◌, ◌*◌, ◌-◌, ◌≤◌, ◌<◌, ◌≡◌, refl, ap, ap₂, sym, ◌∙◌, List, [], ◌∷◌, ◌++◌, arith,
  u32_mod, range_from, All, replicate,
}
use doradd_storage.Config.{max_batch}
use doradd_storage.Dispatch.{wraps}
use doradd_storage.Dispatch.Schedule.{next, schedule, total, IsBatch}

pub range_from-append : (m n i : ℕ) → range_from i (m + n) ≡ range_from i m ++ range_from (i + m) n
range_from-append zero n i =
    ap₂ range_from (let e : i ≡ i + 0 = omega arith in e) (let e : 0 + n ≡ n = omega arith in e)
range_from-append (suc m) n i =
    let counted : suc m + n ≡ suc (m + n) = omega arith in
    let shifted : i + 1 + m ≡ i + suc m = omega arith in
    rw counted (
      ap (λ l. i ∷ l)
        (range_from-append m n (i + 1) ∙ ap (λ k. range_from (i + 1) m ++ range_from k n) shifted))

pub next-room : (c idx : ℕ) → max_batch ≤ c → c < u32_mod → idx ≤ c → next c idx + max_batch ≤ c
unfolding wraps
next-room c idx long fits h = ground arith

next-same : (c idx : ℕ) → c < u32_mod → idx + max_batch ≤ c → next c idx ≡ idx
unfolding wraps
next-same c idx fits h = ground arith

-- As long as a full batch is left at every batch boundary, the entries are dispatched in the order of
-- the log with none left out, however the batches are cut.
pub schedule_in_order :
    (c idx : ℕ) (ks : List ℕ)
    → c < u32_mod
    → All IsBatch ks
    → idx + total ks + 3 ≤ c
    → schedule c idx ks ≡ range_from idx (total ks)
schedule_in_order c idx [] fits b h = refl
schedule_in_order c idx (k ∷ ks) fits b h = rw (next-same c idx fits (omega (arith, b.0.0))) (
    ap (λ l. range_from idx k ++ l) (schedule_in_order c (idx + k) ks fits b.1 (omega arith))
    ∙ sym (range_from-append k (total ks) idx))

-- Full batches replay a log whose length is a multiple of the batch size whole and in order.
pub schedule_full :
    (m c idx : ℕ)
    → c < u32_mod
    → idx + max_batch * m ≤ c
    → schedule c idx (replicate m max_batch) ≡ range_from idx (max_batch * m)
schedule_full zero c idx fits h = ap (range_from idx) (let e : 0 ≡ max_batch * 0 = omega arith in e)
schedule_full (suc m) c idx fits h =
    let more : max_batch * suc m ≡ max_batch + max_batch * m = omega arith in
    rw (next-same c idx fits (omega arith), more)
      (ap (λ l. range_from idx max_batch ++ l)
          (schedule_full m c (idx + max_batch) fits (omega arith))
        ∙ sym (range_from-append max_batch (max_batch * m) idx))

-- At the boundary with exactly a full batch left, what comes next depends on how two requests are
-- batched: cut into two batches the second one starts the log over.
pub schedule_cut :
    (c : ℕ)
    → max_batch ≤ c
    → c < u32_mod
    → (schedule c (c - 4) (2 ∷ []) ≡ (c - 4) ∷ (c - 3) ∷ [])
      × (schedule c (c - 4) (1 ∷ 1 ∷ []) ≡ (c - 4) ∷ 0 ∷ [])
unfolding wraps
schedule_cut c long fits =
    let stays = next-same c (c - 4) fits (omega arith) in
    let second : c - 4 + 1 ≡ c - 3 = omega arith in
    let over : next c (c - 3) ≡ 0 = ground arith in (rw (stays, second), rw (stays, second, over))
