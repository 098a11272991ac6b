-- ===== src/Stages/Pipeline.antt =====
-- The three threads that src/doradd/pipeline.hpp starts on one log, with the rings between them.
--
-- A step is a part of a round between two accesses to a ring, so that every interleaving of the
-- threads is a sequence of steps. The lists `indexed`, `fetched` and `spawned` record the batches
-- that each stage has worked on; the code has no such variables.
use doradd_storage.Base.{ℕ, ◌≡◌, List, [], ◌∷◌, ◌++◌, some, false}
use doradd_storage.Txn.{TxnType}
use doradd_storage.Stages.{
  Indexer, Prefetcher, Spawner, Garbage, new_indexer, new_prefetcher, new_spawner, index_batch,
  prefetch_batch, spawn_batch, spawn_register, spawn_announce, spawn_stops,
}
use doradd_storage.Stages.Ring.{SpscQueue}

-- Where a round stands: looking for work, before its push, or before its pop.
pub data Phase : Type 0 where
  looking pushing popping : Phase

pub record Pipe (Q W : Type 0) : Type 0 where
  pub indexer : Indexer
  pub index_phase : Phase
  pub ring_idx_pref : Q
  pub prefetcher : Prefetcher
  pub prefetch_phase : Phase
  pub prefetch_sz : ℕ
  pub ring_pref_disp : Q
  pub spawner : Spawner
  pub spawn_phase : Phase
  pub spawn_sz : ℕ
  pub world : W
  pub indexed : List ℕ
  pub fetched : List ℕ
  pub spawned : List ℕ

-- What `build_pipelines` sets up on a mapped log, with two empty rings.
unfoldable pub build : {Q W : Type 0} → Q → Q → ℕ → ℕ → ℕ → Garbage → W → Pipe Q W
build ring_idx_pref ring_pref_disp log count workers garbage w = record {
  indexer = new_indexer log count garbage;
  index_phase = looking;
  ring_idx_pref = ring_idx_pref;
  prefetcher = new_prefetcher log count;
  prefetch_phase = looking;
  prefetch_sz = 0;
  ring_pref_disp = ring_pref_disp;
  spawner = new_spawner log count workers garbage;
  spawn_phase = looking;
  spawn_sz = 0;
  world = w;
  indexed = [];
  fetched = [];
  spawned = [];
}

module _ {Q W : Type 0} (ring : SpscQueue Q) (t : TxnType W) (stamp : ℕ → ℕ) where
  open ring use {front, push, pop}

  pub data Step (s s' : Pipe Q W) : Type 0 where
    index :
        (loads rest : List ℕ) (x : Indexer) (w : W)
        → s.index_phase ≡ looking
        → index_batch t s.indexer s.world loads ≡ some (x, w, rest)
        → s' ≡ record s {
          indexer = x;
          index_phase = pushing;
          world = w;
          indexed = s.indexed ++ (x.batch ∷ []);
        }
        → Step s s'
    index_push :
        (q : Q)
        → s.index_phase ≡ pushing
        → push s.indexer.batch s.ring_idx_pref ≡ some q
        → s' ≡ record s { index_phase = looking; ring_idx_pref = q }
        → Step s s'
    fetch :
        (k : ℕ)
        → s.prefetch_phase ≡ looking
        → front s.ring_idx_pref ≡ some k
        → s' ≡ record s {
          prefetcher = (prefetch_batch t k s.prefetcher s.world).0;
          prefetch_phase = pushing;
          prefetch_sz = k;
          world = (prefetch_batch t k s.prefetcher s.world).1;
          fetched = s.fetched ++ (k ∷ []);
        }
        → Step s s'
    fetch_push :
        (q : Q)
        → s.prefetch_phase ≡ pushing
        → push s.prefetch_sz s.ring_pref_disp ≡ some q
        → s' ≡ record s { prefetch_phase = popping; ring_pref_disp = q }
        → Step s s'
    fetch_pop :
        s.prefetch_phase ≡ popping
        → s' ≡ record s { prefetch_phase = looking; ring_idx_pref = pop s.ring_idx_pref }
        → Step s s'
    spawn :
        (counter_map : List ℕ) (k : ℕ)
        → s.spawn_phase ≡ looking
        → spawn_stops s.spawner ≡ false
        → front s.ring_pref_disp ≡ some k
        → s' ≡ record s {
          spawner = (spawn_batch t stamp k (spawn_register counter_map s.spawner) s.world).0;
          spawn_phase = popping;
          spawn_sz = k;
          world = (spawn_batch t stamp k (spawn_register counter_map s.spawner) s.world).1;
          spawned = s.spawned ++ (k ∷ []);
        }
        → Step s s'
    spawn_pop :
        (counter_map : List ℕ)
        → s.spawn_phase ≡ popping
        → s' ≡ record s {
          spawner = spawn_announce counter_map s.spawner;
          spawn_phase = looking;
          ring_pref_disp = pop s.ring_pref_disp;
        }
        → Step s s'

  pub data Reach (s : Pipe Q W) : Pipe Q W → Type 0 where
    here : Reach s s
    then : {u v : Pipe Q W} → Reach s u → Step u v → Reach s v
