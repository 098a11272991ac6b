-- ===== src/Stages/Desync.antt =====
-- The Indexer's test for the end of the log uses the size of the batch before, where the other two
-- stages use the largest size.
use doradd_storage.Base.{
  ℕ, ◌+◌, ◌≤◌, ◌<◌, ◌≡◌, refl, ap, ◌∙◌, List, ◌++◌, some, arith, false, u32_mod,
}
use doradd_storage.Config.{max_batch}
use doradd_storage.Txn.{TxnType, Sized, entries, walk-entries}
use doradd_storage.Dispatch.{check_avail_cnts}
use doradd_storage.Dispatch.Schedule.{total}
use doradd_storage.Stages.{Garbage, Spawner, index_wraps, spawn_rewind}
use doradd_storage.Stages.Ring.{SpscQueue}
use doradd_storage.Stages.Pipeline.{looking, Pipe, build, Step, Reach}
use doradd_storage.Stages.Taken.{index_batch-counts}
use doradd_storage.Stages.Progress.{index_batch-runs}
use doradd_storage.Stages.Recording.{Recorded, recording, blank, visit-prepared, entries-append}
use doradd_storage.Stages.Prepares.{
  Prepares-Reach, build-Prepares, index_batch-same, index_rewind-same,
}

-- Behind three requests that leave three entries, the Indexer goes on where it stands.
index_wraps-three :
    (c idx batch : ℕ) → c < u32_mod → idx + 3 ≡ c → batch ≡ 3 → index_wraps idx c batch ≡ false
unfolding index_wraps
index_wraps-three c idx batch fits left e = ground arith

spawn_rewind-three :
    (c : ℕ) (x : Spawner)
    → max_batch ≤ c
    → c < u32_mod
    → x.idx + 3 ≡ c
    → x.read_count ≡ c
    → ((spawn_rewind x).idx ≡ 0) × ((spawn_rewind x).read_head ≡ x.read_top)
unfolding spawn_rewind
spawn_rewind-three c x long fits left e = ground arith

module _ {Q W : Type 0} (ring : SpscQueue Q) (t : TxnType W) (stamp : ℕ → ℕ) (size : ℕ)
    (sized : Sized t size) where
  -- In every reachable state in which the Indexer looks for work behind a batch of three requests that has
  -- left three entries of a log of `count`, at least MAX_BATCH and fewer than 2^32, and in which a full
  -- batch is there: the Indexer can make a step after which it has prepared `count + 1` entries in a row,
  -- one more than the log has; while a Spawner that stands at the same entry starts the log over.
  pub index_overrun :
      (q r : Q) (log count workers : ℕ) (garbage : Garbage) (w : W) (s : Pipe Q (Recorded W))
      (loads rest : List ℕ) (x : Spawner)
      → max_batch ≤ count
      → count < u32_mod
      → Reach ring (recording t) stamp (build q r log count workers garbage (blank w)) s
      → s.index_phase ≡ looking
      → s.indexer.batch ≡ 3
      → total s.indexed + 3 ≡ count
      → check_avail_cnts s.indexer.handled_req_cnt loads ≡ some (4, rest)
      → x.idx ≡ total s.indexed
      → x.read_count ≡ count
      → ((s' : Pipe Q (Recorded W)) × Step ring (recording t) stamp s s'
          × (s'.world.prepared ≡ entries (log + 4) size 0 (count + 1)))
        × ((spawn_rewind x).idx ≡ 0)
        × ((spawn_rewind x).read_head ≡ x.read_top)
  index_overrun q r log count workers garbage w s loads rest z long fits reach ph three left more
        here same_count =
      let rt = recording t in
      let n = total s.indexed in
      let p =
        Prepares-Reach ring t stamp (log + 4) size count sized fits _ s reach (omega arith)
          (build-Prepares ring t stamp (log + 4) size count sized q r log workers garbage w refl) in
      let at = p.at_idx in
      let count_eq = p.same_count in
      let stays : index_wraps s.indexer.read_idx s.indexer.read_count s.indexer.batch ≡ false =
        rw count_eq (
          index_wraps-three count s.indexer.read_idx s.indexer.batch fits (omega (arith, at))
            three) in
      let (x, w', run) =
        index_batch-runs rt s.indexer s.world loads 4 rest
          (rw (index_rewind-same s.indexer stays) more) in
      let found = (index_batch-counts rt s.indexer x s.world w' loads rest run).0 in
      let full : x.batch ≡ 4 = ground (arith, more, found) in
      let (world, head, idx, same) =
        index_batch-same rt s.indexer x s.world w' loads rest (index_rewind-same s.indexer stays)
          run in
      let walked =
        walk-entries rt.prepare_cowns size (λ a u. sized.prepare_size a u.world) (log + 4) x.batch n
          s.indexer.read_head s.world p.at_head in
      (
        (
          _,
          Step.index loads rest x w' ph run refl,
          ap (λ u. u.prepared) (world ∙ ap (λ y. y.0) walked)
              ∙ visit-prepared t (entries (log + 4) size n x.batch) s.world
              ∙ ap (λ l. l ++ entries (log + 4) size n x.batch) p.calls
              ∙ entries-append (log + 4) size 0 n x.batch n (count + 1) (omega arith) (omega arith),
        ),
        (spawn_rewind-three count z long fits (omega (arith, here)) same_count).0,
        (spawn_rewind-three count z long fits (omega (arith, here)) same_count).1,
      )
