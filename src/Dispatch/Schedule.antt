-- ===== src/Dispatch/Schedule.antt =====
-- Which entries of the log a run of `FileDispatcher` dispatches, and in which order.
use doradd_storage.Base.{
  ℕ, ◌+◌, ◌≤◌, ◌<◌, ◌≡◌, refl, inl, inr, List, [], ◌∷◌, ◌++◌, arith, leb, if◌then◌else◌, range_from,
  All, Bool-cases, Option-cases,
}
use doradd_storage.Config.{max_batch, rpc_log_size, announce_throughput_batch_size}
use doradd_storage.Txn.{TxnType, Sized, visit, entries}
use doradd_storage.Dispatch.{
  FileDispatcher, check_avail_cnts, wraps, begin_round, count_spawned, announce, run,
}
use doradd_storage.Dispatch.Batch.{
  replay, IsValid, start, served, batch_world, dispatch_batch_lem, dispatch_batch_waits,
  check_avail_cnts_lem,
}

-- The entry at which a batch begins, when the last one ended at `idx`.
abbrev pub next : ℕ → ℕ → ℕ
next count idx = if wraps idx count then 0 else idx

-- The entries dispatched by a sequence of batches, given by their sizes.
abbrev pub schedule : ℕ → ℕ → List ℕ → List ℕ
schedule count idx [] = []
schedule count idx (k ∷ ks) =
    range_from (next count idx) k ++ schedule count (next count idx + k) ks

abbrev pub total : List ℕ → ℕ
total [] = 0
total (k ∷ ks) = k + total ks

abbrev pub IsBatch : ℕ → Type 0
IsBatch k = (0 < k) × (k ≤ max_batch)

-- The world after a sequence of batches, each prepared, prefetched and processed before the next.
module _ {W : Type 0} (t : TxnType W) (stamp : ℕ → ℕ) (top size count : ℕ) where
  abbrev pub follow : ℕ → ℕ → List ℕ → W → W
  follow idx l [] w = w
  follow idx l (k ∷ ks) w = follow (next count idx + k) (l + k) ks (
      replay t stamp top size k (next count idx) l (
        visit t.prefetch_cowns (entries top size (next count idx) k)
          (visit t.prepare_cowns (entries top size (next count idx) k) w)))

-- What holds of the dispatcher at the top of the loop.
pub record IsReady (size : ℕ) (d : FileDispatcher) : Type 0 where
  pub valid : IsValid size d
  pub long : max_batch ≤ d.count
  pub small : d.tx_count < announce_throughput_batch_size

-- The steps of the loop that leave the place in the log alone.
abbrev SamePlace : FileDispatcher → FileDispatcher → Type 0
SamePlace d d' =
    (d'.idx ≡ d.idx)
    × (d'.count ≡ d.count)
    × (d'.read_top ≡ d.read_top)
    × (d'.txn_log_id ≡ d.txn_log_id)

begin_round_lem :
    (size : ℕ) (c : List ℕ) (d : FileDispatcher)
    → IsReady size d
    → IsReady size (count_spawned (begin_round c d))
      × SamePlace d (count_spawned (begin_round c d))
      × SamePlace d (begin_round c d)
unfolding begin_round count_spawned
begin_round_lem size c d r = ground arith

announce_lem :
    (size : ℕ) (c : List ℕ) (d : FileDispatcher)
    → IsValid size d
    → max_batch ≤ d.count
    → IsReady size (announce c d) × SamePlace d (announce c d)
unfolding announce
announce_lem size c d v long = ground arith

module _ {W : Type 0} (t : TxnType W) (stamp : ℕ → ℕ) (size : ℕ) (sized : Sized t size) where
  -- What a run has done when it stops: a sequence of batches.
  abbrev pub Follows : FileDispatcher → W → FileDispatcher × W → List ℕ → Type 0
  Follows d w (d', w') ks =
      All IsBatch ks
      × (w' ≡ follow t stamp d.read_top size d.count d.idx d.txn_log_id ks w)
      × (d'.txn_log_id ≡ d.txn_log_id + total ks)

  pub run-Follows :
      (rounds : List (List ℕ)) (d : FileDispatcher) (w : W) (loads : List ℕ)
      → IsReady size d
      → (ks : List ℕ) × Follows d w (run t stamp rounds d w loads) ks
  unfolding run
  run-Follows [] d w loads r = ([], (tt, refl, omega arith))
  run-Follows (c ∷ rounds) d w loads r =
      let d2 = count_spawned (begin_round c d) in
      let (r2, same, same1) = begin_round_lem size c d r in
      elim (Bool-cases (leb rpc_log_size (begin_round c d).txn_log_id)) [
        | inl e ↦ rw e ([], (tt, refl, omega arith))
        | inr e ↦ rw e (elim (Option-cases (check_avail_cnts d2.handled_req_cnt loads)) [
          | inl idle ↦
              rw (dispatch_batch_waits t stamp size sized d2 w loads idle, run)
                ([], (tt, refl, omega arith))
          | inr ((k, rest), got) ↦
              let (done, room, v) =
                dispatch_batch_lem t stamp size sized d2 w loads r2.valid r2.long
                  (omega (arith, r2.small)) got in
              let d3 = served d2 size (start d2) k in
              let (r3, same3) = announce_lem size c d3 v r2.long in
              let (ks, (batches, world, log)) =
                run-Follows rounds (announce c d3)
                  (batch_world t stamp size sized d2 (start d2) k w) rest r3 in
              rw (done, run)
                (
                  k ∷ ks,
                  (
                    (check_avail_cnts_lem d2.handled_req_cnt loads got, batches),
                    (ground arith),
                    (omega arith),
                  ),
                )
        ])
      ]
