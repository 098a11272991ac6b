-- ===== src/Stages/Joint.antt =====
-- RPCHandler of src/doradd/rpc_handler.hpp beside the three stages: the threads that
-- src/doradd/pipeline.hpp starts, which share the count of requests and the array of time stamps.
--
-- A step is one of the handler's or one of a stage's. The count is read by relaxed loads: a load
-- returns a value that the count has had, and never an older one than the load before.
use doradd_storage.Base.{ℕ, ◌+◌, ◌≤◌, ◌≡◌, List, [], ◌∷◌, Option, none, some}
use doradd_storage.Txn.{TxnType}
use doradd_storage.Rpc.{RpcHandler, new_rpc_handler, Tick, step}
use doradd_storage.Stages.{Garbage}
use doradd_storage.Stages.Ring.{SpscQueue}
use doradd_storage.Stages.Pipeline.{Pipe, build, Step}

pub record Joint (Q W : Type 0) : Type 0 where
  pub rpc : RpcHandler
  pub pipe : Pipe Q W
  -- What the last load of the count has returned.
  pub seen : ℕ

-- The threads before their first step, where the handler has read the clock.
unfoldable pub start : {Q W : Type 0} → ℕ → Q → Q → ℕ → ℕ → ℕ → Garbage → W → Joint Q W
start time_ns q r log count workers garbage w = record {
  rpc = new_rpc_handler time_ns;
  pipe = build q r log count workers garbage w;
  seen = 0;
}

abbrev slot_of : ℕ → Option ℕ → ℕ
slot_of unset none = unset
slot_of unset (some now) = now

-- What the Spawner finds in a slot of the array; `unset` is what the pages hold before.
unfoldable pub stamps : (ℕ → ℕ) → RpcHandler → ℕ → ℕ
stamps unset r k = slot_of (unset k) (r.log k)

-- Relaxed loads of a counter that only grows, after a load of `seen`.
abbrev pub Coherent : ℕ → List ℕ → ℕ → Type 0
Coherent seen [] count = seen ≤ count
Coherent seen (v ∷ loads) count = (seen ≤ v) × Coherent v loads count

abbrev pub last_load : ℕ → List ℕ → ℕ
last_load seen [] = seen
last_load seen (v ∷ loads) = last_load v loads

module _ {Q W : Type 0} (ring : SpscQueue Q) (t : TxnType W) where
  -- The loads that a step makes, and those that are left over.
  abbrev pub loads_of : {stamp : ℕ → ℕ} {u v : Pipe Q W} → Step ring t stamp u v → List ℕ
  loads_of (Step.index loads rest x w ph run e) = loads
  loads_of (Step.index_push q ph pushed e) = []
  loads_of (Step.fetch k ph got e) = []
  loads_of (Step.fetch_push q ph pushed e) = []
  loads_of (Step.fetch_pop ph e) = []
  loads_of (Step.spawn counters k ph go got e) = []
  loads_of (Step.spawn_pop counters ph e) = []

  abbrev pub unmade_of : {stamp : ℕ → ℕ} {u v : Pipe Q W} → Step ring t stamp u v → List ℕ
  unmade_of (Step.index loads rest x w ph run e) = rest
  unmade_of (Step.index_push q ph pushed e) = []
  unmade_of (Step.fetch k ph got e) = []
  unmade_of (Step.fetch_push q ph pushed e) = []
  unmade_of (Step.fetch_pop ph e) = []
  unmade_of (Step.spawn counters k ph go got e) = []
  unmade_of (Step.spawn_pop counters ph e) = []

  pub data Move (unset : ℕ → ℕ) (s s' : Joint Q W) : Type 0 where
    arrive : (tick : Tick) → s' ≡ record s { rpc = step tick s.rpc } → Move unset s s'
    stage :
        {p : Pipe Q W} (st : Step ring t (stamps unset s.rpc) s.pipe p)
        → unmade_of st ≡ []
        → Coherent s.seen (loads_of st) s.rpc.avail_cnt
        → s' ≡ record s { pipe = p; seen = last_load s.seen (loads_of st) }
        → Move unset s s'

  pub data Moves (unset : ℕ → ℕ) (s : Joint Q W) : Joint Q W → Type 0 where
    here : Moves unset s s
    then : {u v : Joint Q W} → Moves unset s u → Move unset u v → Moves unset s v

  -- How many of the steps are those of a stage.
  abbrev pub stages_of : {unset : ℕ → ℕ} {s s' : Joint Q W} → Move unset s s' → ℕ
  stages_of (Move.arrive tick e) = 0
  stages_of (Move.stage st all h e) = 1

  abbrev pub stage_steps : {unset : ℕ → ℕ} {s s' : Joint Q W} → Moves unset s s' → ℕ
  stage_steps Moves.here = 0
  stage_steps (Moves.then ms m) = stage_steps ms + stages_of m
