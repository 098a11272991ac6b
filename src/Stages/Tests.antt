-- ===== src/Stages/Tests.antt =====
-- The pipeline on a small log.
use doradd_storage.Base.{
  ℕ, ◌+◌, ◌≤◌, ◌≡◌, refl, List, [], ◌∷◌, ◌++◌, arith, range_from, All, length,
}
use doradd_storage.Txn.{walk, entries}
use doradd_storage.Dispatch.{check_avail_cnts}
use doradd_storage.Dispatch.Schedule.{schedule, total, IsBatch}
use doradd_storage.Stages.{
  Spawner, new_indexer, new_prefetcher, spawn_register, new_spawner, index_batch, index_rewind,
  prefetch_batch, prefetch_rewind, spawn_batch, spawn_rewind, spawn_loop, spawn_stops, bump,
  index_wraps,
}
use doradd_storage.Stages.Pipeline.{looking, pushing, build, Step, Reach}
use doradd_storage.Stages.Fifo.{build-Flow, Reach-in_order}
use doradd_storage.Stages.Desync.{index_overrun}
use doradd_storage.Stages.Refinement.{pipeline_calls, pipeline_in_order}
use doradd_storage.Stages.Recording.{recording, blank, calls}
use doradd_storage.Stages.Example.{
  list_ring, tracer, pages, tracer-Sized, stamp, unset, State, s0, indexed_two, pushed_two,
  fetched_two, passed_two, spawned_two,
}

-- The batch of the first two requests passes through the three stages.
spawned_two-Reach : Reach list_ring (recording tracer) stamp s0 spawned_two
unfolding build new_indexer new_prefetcher new_spawner index_batch index_rewind index_wraps
    check_avail_cnts walk bump prefetch_batch prefetch_rewind spawn_batch spawn_rewind spawn_loop
    spawn_stops spawn_register
spawned_two-Reach =
    Reach.then {u = passed_two}
      (Reach.then {u = fetched_two}
        (Reach.then {u = pushed_two}
          (Reach.then {u = indexed_two}
            (Reach.then {u = s0} Reach.here
              (Step.index (2 ∷ []) [] indexed_two.indexer indexed_two.world refl refl refl))
            (Step.index_push (2 ∷ []) refl refl refl))
          (Step.fetch 2 refl refl refl))
        (Step.fetch_push (2 ∷ []) refl refl refl))
      (Step.spawn (0 ∷ []) 2 refl refl refl refl)

Reach-in_order_example :
    ((rest : List ℕ) × (spawned_two.indexed ≡ spawned_two.fetched ++ rest)
      × (length rest ≤ length spawned_two.ring_idx_pref + 1))
    × ((rest : List ℕ) × (spawned_two.fetched ≡ spawned_two.spawned ++ rest)
        × (length rest ≤ length spawned_two.ring_pref_disp + 1))
Reach-in_order_example =
    Reach-in_order list_ring (recording tracer) stamp s0 spawned_two
      (build-Flow list_ring (recording tracer) stamp [] [] 0 6 1 unset (blank pages) refl refl)
      spawned_two-Reach

pipeline_calls_example :
    (spawned_two.world.processed ≡ calls stamp 4 8 (schedule 6 0 spawned_two.spawned) 0)
    × All IsBatch spawned_two.spawned
    × (spawned_two.spawner.txn_log_id ≡ total spawned_two.spawned)
pipeline_calls_example =
    pipeline_calls list_ring tracer stamp 8 tracer-Sized [] [] 0 6 1 unset pages spawned_two refl
      refl (omega arith) (omega arith) spawned_two-Reach

pipeline_in_order_example :
    (spawned_two.world.processed ≡ calls stamp 4 8 (range_from 0 2) 0)
    × (spawned_two.world.prepared ≡ entries 4 8 0 2)
    × (2 ≤ 2)
pipeline_in_order_example =
    pipeline_in_order list_ring tracer stamp 8 tracer-Sized [] [] 0 6 1 unset pages spawned_two refl
      refl (omega arith) (omega arith) (omega arith) spawned_two-Reach

-- A log of six entries: a batch of three has been indexed and pushed.
abbrev three_indexed : State
three_indexed = record s0 {
  indexer = record (new_indexer 0 6 unset) {
    handled_req_cnt = 3;
    read_idx = 3;
    read_head = 28;
    batch = 3;
  };
  index_phase = pushing;
  world = record {
    world = record { ready = 20 ∷ 12 ∷ 4 ∷ []; spawned = [] };
    prepared = 4 ∷ 12 ∷ 20 ∷ [];
    processed = [];
  };
  indexed = 3 ∷ [];
}

abbrev three_pushed : State
three_pushed = record three_indexed { index_phase = looking; ring_idx_pref = 3 ∷ [] }

three_pushed-Reach : Reach list_ring (recording tracer) stamp s0 three_pushed
unfolding build new_indexer new_prefetcher new_spawner index_batch index_rewind index_wraps
    check_avail_cnts walk bump
three_pushed-Reach =
    Reach.then {u = three_indexed}
      (Reach.then {u = s0} Reach.here
        (Step.index (3 ∷ []) [] three_indexed.indexer three_indexed.world refl refl refl))
      (Step.index_push (3 ∷ []) refl refl refl)

-- The Spawner at the fourth entry.
abbrev at_fourth : Spawner
at_fourth = record (new_spawner 0 6 1 unset) {
  idx = 3;
  read_head = 28;
  prepare_read_head = 28;
  txn_log_id = 3;
}

-- The Indexer prepares seven entries of the six.
index_overrun_example :
    ((s' : State) × Step list_ring (recording tracer) stamp three_pushed s'
      × (s'.world.prepared ≡ 4 ∷ 12 ∷ 20 ∷ 28 ∷ 36 ∷ 44 ∷ 52 ∷ []))
    × ((spawn_rewind at_fourth).idx ≡ 0)
    × ((spawn_rewind at_fourth).read_head ≡ 4)
unfolding check_avail_cnts new_spawner
index_overrun_example =
    index_overrun list_ring tracer stamp 8 tracer-Sized [] [] 0 6 1 unset pages three_pushed
      (7 ∷ []) [] at_fourth (omega arith) (omega arith) three_pushed-Reach refl refl refl refl refl
      refl
