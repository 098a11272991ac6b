-- ===== src/Stages/Refinement.antt =====
-- The calls that the pipeline makes on a transaction type, against those of one thread that goes through
-- the log.
use doradd_storage.Base.{
  ℕ, ◌+◌, ◌≤◌, ◌<◌, ◌≡◌, refl, ◌∙◌, List, [], arith, u32_mod, range_from, All,
}
use doradd_storage.Config.{max_batch}
use doradd_storage.Txn.{TxnType, Sized, entries}
use doradd_storage.Dispatch.Order.{schedule_in_order}
use doradd_storage.Dispatch.Replay.{Projects}
use doradd_storage.Dispatch.Schedule.{IsBatch, schedule, total}
use doradd_storage.Stages.{Garbage, new_prefetcher, new_spawner}
use doradd_storage.Stages.Ring.{SpscQueue}
use doradd_storage.Stages.Pipeline.{Pipe, build, Reach}
use doradd_storage.Stages.Fifo.{Flow-Reach, build-Flow, spawned-batches, indexed-covers}
use doradd_storage.Stages.Execution.{Place, Place-Reach}
use doradd_storage.Stages.Recording.{
  Recorded, recording, recording-Sized, recording-Projects, blank, add_call, calls, execute-calls,
}
use doradd_storage.Stages.Prepares.{Prepares-Reach, build-Prepares}

module _ {Q W S : Type 0} (ring : SpscQueue Q) (t : TxnType W) (stamp : ℕ → ℕ) (state : W → S)
    (exec : ℕ → ℕ → S → S) (p : Projects t state exec) (size : ℕ) (sized : Sized t size) where
  pub build-Place :
      (q r : Q) (log count workers : ℕ) (garbage : Garbage) (w : W)
      → Place ring t stamp state exec p
          (log + 4)
          size
          count
          sized
          (state w)
          (build q r log count workers garbage w)
  unfolding build new_prefetcher new_spawner
  build-Place q r log count workers garbage w = record {
    fetch_at = omega arith;
    fetch_in = omega arith;
    spawn_at = omega arith;
    spawn_in = omega arith;
    executed = refl;
  }

module _ {Q W : Type 0} (ring : SpscQueue Q) (t : TxnType W) (stamp : ℕ → ℕ) (size : ℕ)
    (sized : Sized t size) where
  -- For a log of at least MAX_BATCH and fewer than 2^32 entries, in every interleaving of the three
  -- stages: the calls of `parse_and_process` that the Spawner has made are those of the schedule of the
  -- dispatched batches, in order, each at the address of its entry, the k-th with the k-th time stamp;
  -- each batch has one to MAX_BATCH requests; and the Spawner has taken one arrival time for each.
  -- Nothing is assumed of what the calls do, but that each returns the size of an entry.
  pub pipeline_calls :
      (q r : Q) (log count workers : ℕ) (garbage : Garbage) (w : W) (s : Pipe Q (Recorded W))
      → ring.to_list q ≡ []
      → ring.to_list r ≡ []
      → max_batch ≤ count
      → count < u32_mod
      → Reach ring (recording t) stamp (build q r log count workers garbage (blank w)) s
      → (s.world.processed ≡ calls stamp (log + 4) size (schedule count 0 s.spawned) 0)
        × All IsBatch s.spawned
        × (s.spawner.txn_log_id ≡ total s.spawned)
  pipeline_calls q r log count workers garbage w s hq hr long fits reach =
      let rt = recording t in
      let rs = recording-Sized t size sized in
      let rp = recording-Projects t in
      let seen : Recorded W → List (ℕ × ℕ) = λ u. u.processed in
      let flow = build-Flow ring rt stamp q r log count workers garbage (blank w) hq hr in
      let place =
        Place-Reach ring rt stamp seen add_call rp (log + 4) size count rs [] long fits _ s flow
          (build-Place ring rt stamp seen add_call rp size rs q r log count workers garbage
            (blank w))
          reach in
      (
        place.executed ∙ execute-calls stamp (log + 4) size (schedule count 0 s.spawned) 0 [],
        spawned-batches ring rt stamp s (Flow-Reach ring rt stamp _ s flow reach),
        place.spawn_at.at_log,
      )

  -- As long as the batches that the Indexer has made leave three entries of a log of at least MAX_BATCH
  -- and fewer than 2^32 entries, whatever the interleaving and the batches: the Spawner has processed
  -- the first entries of the log in order, the k-th with the k-th time stamp; the Indexer has prepared
  -- the first entries of the log, in order and each once; and it has prepared all those that the
  -- Spawner has processed. Nothing is assumed of what the calls do, but that each returns the size of
  -- an entry.
  pub pipeline_in_order :
      (q r : Q) (log count workers : ℕ) (garbage : Garbage) (w : W) (s : Pipe Q (Recorded W))
      → ring.to_list q ≡ []
      → ring.to_list r ≡ []
      → max_batch ≤ count
      → count < u32_mod
      → total s.indexed + 3 ≤ count
      → Reach ring (recording t) stamp (build q r log count workers garbage (blank w)) s
      → (s.world.processed ≡ calls stamp (log + 4) size (range_from 0 s.spawner.txn_log_id) 0)
        × (s.world.prepared ≡ entries (log + 4) size 0 (total s.indexed))
        × (s.spawner.txn_log_id ≤ total s.indexed)
  pipeline_in_order q r log count workers garbage w s hq hr long fits room reach =
      let (done, batches, log_id) =
        pipeline_calls q r log count workers garbage w s hq hr long fits reach in
      let rt = recording t in
      let flow = build-Flow ring rt stamp q r log count workers garbage (blank w) hq hr in
      let covered = indexed-covers ring rt stamp s (Flow-Reach ring rt stamp _ s flow reach) in
      let in_order = schedule_in_order count 0 s.spawned fits batches (omega arith) in
      let prepared =
        Prepares-Reach ring t stamp (log + 4) size count sized fits _ s reach room
          (build-Prepares ring t stamp (log + 4) size count sized q r log workers garbage w refl) in
      (rw (done, in_order, log_id) refl, prepared.calls, omega (arith, covered, log_id))
