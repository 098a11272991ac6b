-- ===== src/Stages/JointTests.antt =====
-- The handler and the pipeline together on a small log.
use doradd_storage.Base.{ℕ, ◌*◌, ◌≤◌, ◌<◌, ◌≡◌, ◌⊎◌, refl, List, [], ◌∷◌, some, arith, false}
use doradd_storage.Config.{rpc_log_size}
use doradd_storage.Txn.{walk}
use doradd_storage.Dispatch.{check_avail_cnts, batch_of}
use doradd_storage.Dispatch.Schedule.{schedule}
use doradd_storage.Rpc.{RpcHandler, new_rpc_handler, Tick, step, step_at, count, stamp}
use doradd_storage.Stages.{
  new_indexer, new_prefetcher, spawn_register, new_spawner, index_batch, index_rewind,
  prefetch_batch, prefetch_rewind, spawn_batch, spawn_rewind, spawn_loop, spawn_stops, bump,
  index_wraps,
}
use doradd_storage.Stages.Pipeline.{Pipe, build, Step}
use doradd_storage.Stages.Recording.{Recorded, recording, recording-Sized, blank, calls}
use doradd_storage.Stages.Example.{
  list_ring, tracer, Pages, pages, tracer-Sized, unset, indexed_two, pushed_two, fetched_two,
  passed_two, spawned_two,
}
use doradd_storage.Stages.Joint.{Joint, start, stamps, Move, Moves, stage_steps}
use doradd_storage.Stages.Arrivals.{dispatched-arrived}
use doradd_storage.Stages.Drain.{Stirs, stages-Stirs, stage_steps-few}

abbrev first : Tick
first = record { time_ns = 50; now = 100; inter_arrival = 1 }

abbrev second : Tick
second = record { time_ns = 51; now = 101; inter_arrival = 1 }

abbrev empty_slot : ℕ → ℕ
empty_slot k = 0

abbrev two_arrived : RpcHandler
two_arrived = step second (step second (step first (step first (new_rpc_handler 50))))

abbrev at_pipe : Pipe (List ℕ) (Recorded Pages) → Joint (List ℕ) (Recorded Pages)
at_pipe p = record { rpc = two_arrived; pipe = p; seen = 2 }

abbrev served : Joint (List ℕ) (Recorded Pages)
served = at_pipe spawned_two

-- Two requests arrive, and their batch passes through the three stages.
served-Moves :
    Moves list_ring (recording tracer) empty_slot (start 50 [] [] 0 6 1 unset (blank pages)) served
unfolding start build new_indexer new_prefetcher new_spawner index_batch index_rewind index_wraps
    check_avail_cnts batch_of walk bump prefetch_batch prefetch_rewind spawn_batch spawn_rewind
    spawn_loop spawn_stops spawn_register stamps step step_at stamp count new_rpc_handler
served-Moves =
    Moves.then {u = at_pipe passed_two}
      (Moves.then {u = at_pipe fetched_two}
        (Moves.then {u = at_pipe pushed_two}
          (Moves.then {u = at_pipe indexed_two}
            (Moves.then
              (Moves.then
                (Moves.then
                  (Moves.then (Moves.then Moves.here (Move.arrive first refl))
                    (Move.arrive first refl))
                  (Move.arrive second refl))
                (Move.arrive second refl))
              (Move.stage
                (Step.index (2 ∷ []) [] indexed_two.indexer indexed_two.world refl refl refl) refl
                (omega arith, omega arith) refl))
            (Move.stage (Step.index_push (2 ∷ []) refl refl refl) refl (omega arith) refl))
          (Move.stage (Step.fetch 2 refl refl refl) refl (omega arith) refl))
        (Move.stage (Step.fetch_push (2 ∷ []) refl refl refl) refl (omega arith) refl))
      (Move.stage (Step.spawn (0 ∷ []) 2 refl refl refl refl) refl (omega arith) refl)

dispatched-arrived_example :
    (2 ≤ two_arrived.avail_cnt)
    × (two_arrived.avail_cnt ≤ rpc_log_size)
    × ((k : ℕ) → k < 2 → (now : ℕ) × (two_arrived.log k ≡ some now))
    × (spawned_two.world.processed
        ≡ calls (stamps empty_slot two_arrived) 4 8 (schedule 6 0 spawned_two.spawned) 0)
dispatched-arrived_example =
    dispatched-arrived list_ring tracer empty_slot 8 tracer-Sized 50 [] [] 0 6 1 unset pages served
      refl refl (omega arith) (omega arith) served-Moves

stages-Stirs_example :
    ((2 ≡ two_arrived.avail_cnt) ⊎ Stirs list_ring (recording tracer) empty_slot served)
    × (spawn_stops spawned_two.spawner ≡ false)
stages-Stirs_example =
    stages-Stirs list_ring (recording tracer) empty_slot 8 (recording-Sized tracer 8 tracer-Sized)
      50 [] [] 0 6 1 unset (blank pages) served refl refl (omega arith) (omega arith) served-Moves

stage_steps-few_example :
    stage_steps list_ring (recording tracer) served-Moves ≤ 7 * two_arrived.avail_cnt
stage_steps-few_example =
    stage_steps-few list_ring (recording tracer) empty_slot 8
      (recording-Sized tracer 8 tracer-Sized) 50 [] [] 0 6 1 unset (blank pages) served refl refl
      (omega arith) (omega arith) served-Moves
