-- ===== src/Dispatch/Batch.antt =====
-- What one call of `dispatch_batch` does, against the entries of the log.
use doradd_storage.Base.{
  ℕ, zero, suc, ◌+◌, ◌*◌, ◌≤◌, ◌<◌, ◌≡◌, inl, inr, List, [], ◌∷◌, none, some, arith, if◌then◌else◌,
  sub64, add64, add32, u32_mod, u64_mod, Option-cases,
}
use doradd_storage.Config.{max_batch}
use doradd_storage.Txn.{TxnType, Sized, visit, entries, entry_addr, walk-entries}
use doradd_storage.Dispatch.{
  FileDispatcher, batch_of, check_avail_cnts, wraps, rewind, dispatch_loop, run_batch,
  dispatch_batch,
}

module _ {W : Type 0} (t : TxnType W) (stamp : ℕ → ℕ) (top size : ℕ) where
  -- The reference: the entries `i`, `i + 1`, ... are processed in order, with consecutive stamps.
  abbrev pub replay : ℕ → ℕ → ℕ → W → W
  replay zero i l w = w
  replay (suc n) i l w =
      replay n (i + 1) (l + 1) (t.parse_and_process (entry_addr top size i) (stamp l) w).0

abbrev pub advance : FileDispatcher → ℕ → ℕ → FileDispatcher
advance d size n = record d {
  idx = d.idx + n;
  read_head = entry_addr d.read_top size (d.idx + n);
  tx_count = d.tx_count + n;
  txn_log_id = d.txn_log_id + n;
}

-- One round of the dispatch loop.
abbrev stepped : {W : Type 0} → TxnType W → (ℕ → ℕ) → FileDispatcher → W → FileDispatcher
stepped t stamp d w = record d {
  idx = add32 d.idx 1;
  read_head = d.read_head + (t.parse_and_process d.read_head (stamp d.txn_log_id) w).1;
  tx_count = add64 d.tx_count 1;
  txn_log_id = d.txn_log_id + 1;
}

module _ {W : Type 0} (t : TxnType W) (stamp : ℕ → ℕ) (size : ℕ) (sized : Sized t size) where
  dispatch_loop_lem :
      (n : ℕ) (d : FileDispatcher) (w : W) (ret : ℕ)
      → d.read_head ≡ entry_addr d.read_top size d.idx
      → d.idx + n < u32_mod
      → d.tx_count + n < u64_mod
      → dispatch_loop t stamp n d w ret
        ≡ (advance d size n, replay t stamp d.read_top size n d.idx d.txn_log_id w, ret + size * n)
  unfolding dispatch_loop
  dispatch_loop_lem zero d w ret h small small' = ground arith
  dispatch_loop_lem (suc n) d w ret h small small' =
      let size_eq = sized.process_size d.read_head (stamp d.txn_log_id) w in
      let wrap : add32 d.idx 1 ≡ d.idx + 1 = omega arith in
      let wrap' : add64 d.tx_count 1 ≡ d.tx_count + 1 = omega arith in
      let d' = stepped t stamp d w in
      let ih =
        dispatch_loop_lem n d' (t.parse_and_process d.read_head (stamp d.txn_log_id) w).0
          (ret + (t.parse_and_process d.read_head (stamp d.txn_log_id) w).1)
          (rw wrap (omega (arith, size_eq))) (omega arith) (omega arith) in
      ground (arith, size_eq, ih)

-- The three pointers stand at the entry `idx`.
pub record IsPlaced (size : ℕ) (d : FileDispatcher) : Type 0 where
  pub at_idx : d.read_head ≡ entry_addr d.read_top size d.idx
  pub parse_at_idx : d.prepare_parse_read_head ≡ entry_addr d.read_top size d.idx
  pub proc_at_idx : d.prepare_proc_read_head ≡ entry_addr d.read_top size d.idx

-- At a batch boundary the three pointers stand at the entry `idx`, within the log.
pub record IsValid (size : ℕ) (d : FileDispatcher) : Type 0 where
  pub at_idx : d.read_head ≡ entry_addr d.read_top size d.idx
  pub parse_at_idx : d.prepare_parse_read_head ≡ entry_addr d.read_top size d.idx
  pub proc_at_idx : d.prepare_proc_read_head ≡ entry_addr d.read_top size d.idx
  pub within : d.idx ≤ d.count
  pub fits : d.count < u32_mod

-- The entry that the next batch begins with.
abbrev pub start : FileDispatcher → ℕ
start d = if wraps d.idx d.count then 0 else d.idx

-- The dispatcher after a batch of `k` entries from entry `i`.
abbrev pub served : FileDispatcher → ℕ → ℕ → ℕ → FileDispatcher
served d size i k = record d {
  idx = i + k;
  look_ahead = k;
  read_head = entry_addr d.read_top size (i + k);
  prepare_parse_read_head = entry_addr d.read_top size (i + k);
  prepare_proc_read_head = entry_addr d.read_top size (i + k);
  tx_count = d.tx_count + k;
  handled_req_cnt = add64 d.handled_req_cnt k;
  txn_log_id = d.txn_log_id + k;
}

pub batch_of_lem : (a k : ℕ) → batch_of a ≡ some k → (0 < k) × (k ≤ max_batch) × (k ≤ a)
unfolding batch_of
batch_of_lem a k h = ground arith

-- A batch has between one and `max_batch` requests, and no more than one of the loads allows.
pub check_avail_cnts_lem :
    (handled : ℕ) (loads : List ℕ) {k : ℕ} {rest : List ℕ}
    → check_avail_cnts handled loads ≡ some (k, rest)
    → (0 < k) × (k ≤ max_batch)
unfolding check_avail_cnts
check_avail_cnts_lem handled [] h = absurd (cc)
check_avail_cnts_lem handled (v ∷ loads) {k} h = elim (Option-cases (batch_of (sub64 v handled))) [
  | inl e ↦ check_avail_cnts_lem handled loads (rw (e, check_avail_cnts) at h)
  | inr (a, e) ↦ ground (arith, batch_of_lem (sub64 v handled) a e, (rw (e, check_avail_cnts) at h))
]

-- The rewind leaves a full batch in front of the index.
pub start-room :
    (size : ℕ) (d : FileDispatcher)
    → IsValid size d
    → max_batch ≤ d.count
    → start d + max_batch ≤ d.count
unfolding wraps
start-room size d v h = ground arith

IsValid-IsPlaced : (size : ℕ) (d : FileDispatcher) → IsValid size d → IsPlaced size d
IsValid-IsPlaced size d v = record {
  at_idx = v.at_idx;
  parse_at_idx = v.parse_at_idx;
  proc_at_idx = v.proc_at_idx;
}

pub rewind-IsValid : (size : ℕ) (d : FileDispatcher) → IsValid size d → IsValid size (rewind d)
unfolding rewind
rewind-IsValid size d v = ground arith

-- What the rewind leaves alone, and the index it leaves.
rewind_lem :
    (d : FileDispatcher) (size k : ℕ)
    → ((rewind d).idx ≡ start d)
      × ((rewind d).handled_req_cnt ≡ d.handled_req_cnt)
      × ((rewind d).tx_count ≡ d.tx_count)
      × ((rewind d).txn_log_id ≡ d.txn_log_id)
      × ((rewind d).read_top ≡ d.read_top)
      × (served (rewind d) size (start d) k ≡ served d size (start d) k)
unfolding rewind
rewind_lem d size k = ground arith

-- The dispatcher when the entries of the batch are prepared and prefetched.
abbrev prepared : ℕ → FileDispatcher → ℕ → FileDispatcher
prepared size d k = record d {
  look_ahead = k;
  prepare_parse_read_head = entry_addr d.read_top size (d.idx + k);
  prepare_proc_read_head = entry_addr d.read_top size (d.idx + k);
}

module _ {W : Type 0} (t : TxnType W) (stamp : ℕ → ℕ) (size : ℕ) (sized : Sized t size) where
  -- The world after a batch: all of it prepared, then prefetched, then processed in log order.
  abbrev pub batch_world : FileDispatcher → ℕ → ℕ → W → W
  batch_world d i k w = replay t stamp d.read_top size k i d.txn_log_id (
      visit t.prefetch_cowns (entries d.read_top size i k)
        (visit t.prepare_cowns (entries d.read_top size i k) w))

  pub run_batch_lem :
      (k : ℕ) (d : FileDispatcher) (w : W)
      → IsPlaced size d
      → d.idx + k < u32_mod
      → d.tx_count + k < u64_mod
      → run_batch t stamp k d w ≡ (served d size d.idx k, batch_world d d.idx k w, size * k)
  unfolding run_batch
  run_batch_lem k d w v small small' =
      rw
        (
          walk-entries t.prepare_cowns size sized.prepare_size d.read_top k d.idx
              d.prepare_proc_read_head w v.proc_at_idx,
          walk-entries t.prefetch_cowns size sized.prefetch_size d.read_top k d.idx
              d.prepare_parse_read_head (visit t.prepare_cowns (entries d.read_top size d.idx k) w)
              v.parse_at_idx,
        )
        (ground (
          arith,
          dispatch_loop_lem t stamp size sized k (prepared size d k)
              (visit t.prefetch_cowns (entries d.read_top size d.idx k)
                (visit t.prepare_cowns (entries d.read_top size d.idx k) w))
              0 v.at_idx small small',
        ))

  -- For a log of at least MAX_BATCH and fewer than 2^32 entries, between two batches, and a count of
  -- transactions that does not come to 2^64 with the batch: given a batch of `k` requests,
  -- `dispatch_batch` prepares the next `k` entries of the log,
  -- prefetches them and processes them in log order, where the next entry is the first one if fewer
  -- than `max_batch` entries are left. All of them lie in the log, and the pointers stand behind
  -- the last one.
  pub dispatch_batch_lem :
      (d : FileDispatcher) (w : W) (loads : List ℕ) {k : ℕ} {rest : List ℕ}
      → IsValid size d
      → max_batch ≤ d.count
      → d.tx_count + max_batch < u64_mod
      → check_avail_cnts d.handled_req_cnt loads ≡ some (k, rest)
      → (dispatch_batch t stamp d w loads
          ≡ some (served d size (start d) k, batch_world d (start d) k w, size * k, rest))
        × (start d + k ≤ d.count)
        × IsValid size (served d size (start d) k)
  unfolding dispatch_batch
  dispatch_batch_lem d w loads {k} {rest} v long small h =
      let room = start-room size d v long in
      let k_le = check_avail_cnts_lem d.handled_req_cnt loads h in
      let (same_idx, same_handled, same_tx, same_log, same_top, same_served) =
        rewind_lem d size k in
      let batch =
        run_batch_lem k (rewind d) w (IsValid-IsPlaced size (rewind d) (rewind-IsValid size d v))
          (omega arith) (omega arith) in
      (
        rw (same_handled, h, dispatch_batch)
            (rw (batch, dispatch_batch)
              (ground (arith, same_idx, same_log, same_top, same_served))),
        omega arith,
        omega arith,
      )

  -- Without a batch nothing is done.
  pub dispatch_batch_waits :
      (d : FileDispatcher) (w : W) (loads : List ℕ)
      → check_avail_cnts d.handled_req_cnt loads ≡ none
      → dispatch_batch t stamp d w loads ≡ none
  unfolding dispatch_batch
  dispatch_batch_waits d w loads h =
      let (same_idx, same_handled, same_tx, same_log, same_top, same_served) =
        rewind_lem d size 0 in
      rw (same_handled, h, dispatch_batch)
