-- ===== src/Dispatch/Short.antt =====
-- `FileDispatcher::dispatch_batch` on a log of fewer entries than a batch.
use doradd_storage.Base.{ℕ, ◌+◌, ◌*◌, ◌≤◌, ◌<◌, ◌≡◌, refl, List, some, arith, u32_mod, u64_mod}
use doradd_storage.Config.{max_batch}
use doradd_storage.Txn.{TxnType, Sized}
use doradd_storage.Dispatch.{FileDispatcher, wraps, rewind, check_avail_cnts, dispatch_batch}
use doradd_storage.Dispatch.Batch.{
  IsPlaced, served, batch_world, run_batch_lem, check_avail_cnts_lem,
}

-- The subtraction of the batch size wraps around.
rewind-short :
    (d : FileDispatcher)
    → d.count < max_batch
    → d.idx + max_batch ≤ d.count + u32_mod
    → rewind d ≡ d
unfolding rewind wraps
rewind-short d short h = ground arith

module _ {W : Type 0} (t : TxnType W) (stamp : ℕ → ℕ) (size : ℕ) (sized : Sized t size) where
  -- A log of fewer than MAX_BATCH entries is never started over. With the three pointers at any entry `idx`,
  -- in the log or behind its end, as long as `idx` plus MAX_BATCH is below 2^32 and the count of
  -- transactions does not come to 2^64 with the batch: a batch of `k` requests is prepared, prefetched and
  -- processed at the `k` entries from `idx` on, and the three pointers stand behind them, so that the next
  -- batch begins there.
  pub dispatch_batch-short :
      (d : FileDispatcher) (w : W) (loads : List ℕ) {k : ℕ} {rest : List ℕ}
      → IsPlaced size d
      → d.count < max_batch
      → d.idx + max_batch < u32_mod
      → d.tx_count + max_batch < u64_mod
      → check_avail_cnts d.handled_req_cnt loads ≡ some (k, rest)
      → (dispatch_batch t stamp d w loads
          ≡ some
              (served d size d.idx k, batch_world t stamp size sized d d.idx k w, size * k, rest))
        × IsPlaced size (served d size d.idx k)
  unfolding dispatch_batch
  dispatch_batch-short d w loads {k} {rest} p short small low h =
      let k_le = check_avail_cnts_lem d.handled_req_cnt loads h in
      let same = rewind-short d short (omega arith) in
      let batch = run_batch_lem t stamp size sized k d w p (omega arith) (omega arith) in
      (
        rw (same, h, dispatch_batch) (rw (same, batch, dispatch_batch) refl),
        record { at_idx = refl; parse_at_idx = refl; proc_at_idx = refl },
      )
