-- ===== src/Stages/Arrivals.antt =====
-- What the stages may rely on when they share the count and the time stamps with RPCHandler.
use doradd_storage.Base.{
  ℕ, ◌+◌, ◌≤◌, ◌<◌, ◌≡◌, refl, subst, sym, ◌∙◌, List, [], some, arith, u32_mod,
}
use doradd_storage.Config.{max_batch, rpc_log_size}
use doradd_storage.Txn.{TxnType, Sized}
use doradd_storage.Dispatch.Replay.{Projects}
use doradd_storage.Dispatch.Schedule.{schedule, total}
use doradd_storage.Rpc.{new_rpc_handler, step}
use doradd_storage.Rpc.Stamps.{IsValid, step_at-IsValid, step_at-grows, new-IsValid}
use doradd_storage.Stages.{Garbage, new_indexer}
use doradd_storage.Stages.Ring.{SpscQueue}
use doradd_storage.Stages.Pipeline.{Pipe, build}
use doradd_storage.Stages.Fifo.{Flow, Flow-Step, build-Flow, indexed-covers}
use doradd_storage.Stages.Execution.{Place, Place-Step, length-schedule}
use doradd_storage.Stages.Refinement.{build-Place}
use doradd_storage.Stages.Taken.{
  last_load-Coherent, execute-agree, step-stamps, Taken, Taken-Step, Flow-restamp,
}
use doradd_storage.Stages.Recording.{
  Recorded, recording, recording-Sized, recording-Projects, blank, add_call, calls, execute-calls,
}
use doradd_storage.Stages.Joint.{Joint, start, stamps, Move, Moves}

module _ {Q W S : Type 0} (ring : SpscQueue Q) (t : TxnType W) (unset : ℕ → ℕ) (state : W → S)
    (exec : ℕ → ℕ → S → S) (p : Projects t state exec) (top size c : ℕ) (sized : Sized t size)
    (s0 : S) where
  pub record Inv (s : Joint Q W) : Type 0 where
    pub valid : IsValid s.rpc
    pub seen_in : s.seen ≤ s.rpc.avail_cnt
    pub taken : Taken ring t s.pipe s.seen
    pub flow : Flow ring t (stamps unset s.rpc) s.pipe
    pub place : Place ring t (stamps unset s.rpc) state exec p top size c sized s0 s.pipe

  -- Nothing is dispatched that the Indexer has not taken.
  pub spawned-within :
      {f : ℕ → ℕ} (u : Pipe Q W) (seen : ℕ)
      → Flow ring t f u
      → Taken ring t u seen
      → total u.spawned ≤ seen
  spawned-within {f} u seen h k = omega (arith, k.covered, indexed-covers ring t f u h)

  Place-restamp :
      {f g : ℕ → ℕ} (u : Pipe Q W)
      → ((k : ℕ) → k < total u.spawned → f k ≡ g k)
      → Place ring t f state exec p top size c sized s0 u
      → Place ring t g state exec p top size c sized s0 u
  Place-restamp {f} {g} u same h = record {
    fetch_at = h.fetch_at;
    fetch_in = h.fetch_in;
    spawn_at = h.spawn_at;
    spawn_in = h.spawn_in;
    executed =
        h.executed
        ∙ execute-agree exec f g top size (total u.spawned) (schedule c 0 u.spawned) 0 s0 same
            (omega (arith, length-schedule c 0 u.spawned));
  }

  module _ (long : max_batch ≤ c) (fits : c < u32_mod) where
    Inv-Move : (s s' : Joint Q W) → Inv s → Move ring t unset s s' → Inv s'
    unfolding step
    Inv-Move s s' v (Move.arrive tick e) =
        let level = v.valid.counted in
        let before = spawned-within s.pipe s.seen v.flow v.taken in
        subst Inv (sym e) (record {
          valid = step_at-IsValid s.rpc.phase tick s.rpc v.valid refl;
          seen_in = omega (arith, v.seen_in, step_at-grows s.rpc.phase tick s.rpc v.valid refl);
          taken = v.taken;
          flow = Flow-restamp ring t v.flow;
          place =
              Place-restamp s.pipe
                (λ k h.
                  sym (step-stamps unset tick s.rpc k (omega (arith, level, before, v.seen_in, h))))
                v.place;
        })
    Inv-Move s s' v (Move.stage {p = u} st all h e) =
        let level = v.valid.counted in
        let full = v.valid.in_log in
        let (above, below) = last_load-Coherent s.seen _ s.rpc.avail_cnt h in
        subst Inv (sym e) (record {
          valid = v.valid;
          seen_in = below;
          taken =
              Taken-Step ring t s.pipe u s.seen s.rpc.avail_cnt st all h
                (omega (arith, level, full)) v.taken;
          flow = Flow-Step ring t (stamps unset s.rpc) s.pipe u v.flow st;
          place =
              Place-Step ring t (stamps unset s.rpc) state exec p top size c sized s0 long fits
                s.pipe u v.flow v.place st;
        })

    pub Inv-Moves : (s s' : Joint Q W) → Inv s → Moves ring t unset s s' → Inv s'
    Inv-Moves s s' v Moves.here = v
    Inv-Moves s s' v (Moves.then {u} ms m) = Inv-Move u s' (Inv-Moves s u v ms) m

module _ {Q W S : Type 0} (ring : SpscQueue Q) (t : TxnType W) (unset : ℕ → ℕ) (state : W → S)
    (exec : ℕ → ℕ → S → S) (p : Projects t state exec) (size : ℕ) (sized : Sized t size) where
  pub start-Inv :
      (time_ns : ℕ) (q r : Q) (log count workers : ℕ) (garbage : Garbage) (w : W)
      → ring.to_list q ≡ []
      → ring.to_list r ≡ []
      → Inv ring t unset state exec p
          (log + 4)
          size
          count
          sized
          (state w)
          (start time_ns q r log count workers garbage w)
  unfolding start new_rpc_handler build new_indexer
  start-Inv time_ns q r log count workers garbage w hq hr = record {
    valid = new-IsValid time_ns;
    seen_in = omega arith;
    taken = record { counted = refl; covered = omega arith };
    flow = build-Flow ring t _ q r log count workers garbage w hq hr;
    place = build-Place ring t _ state exec p size sized q r log count workers garbage w;
  }

module _ {Q W : Type 0} (ring : SpscQueue Q) (t : TxnType W) (unset : ℕ → ℕ) (size : ℕ)
    (sized : Sized t size) where
  -- For a log of at least MAX_BATCH and fewer than 2^32 entries, in every interleaving of the handler and
  -- the three stages, where a store to the array is visible to the stages from the step that makes it:
  -- the Spawner has dispatched no more requests than the handler has counted, and these are no more than
  -- the array of time stamps has slots; the slot of every dispatched request holds a stamp; and the
  -- calls of `parse_and_process` that it has made are those of the schedule of the dispatched batches,
  -- in order, each with the stamp that its slot holds. Nothing is assumed of what the calls do, but that
  -- each returns the size of an entry.
  pub dispatched-arrived :
      (time_ns : ℕ) (q r : Q) (log count workers : ℕ) (garbage : Garbage) (w : W)
      (s : Joint Q (Recorded W))
      → ring.to_list q ≡ []
      → ring.to_list r ≡ []
      → max_batch ≤ count
      → count < u32_mod
      → Moves ring (recording t) unset (start time_ns q r log count workers garbage (blank w)) s
      → (s.pipe.spawner.txn_log_id ≤ s.rpc.avail_cnt)
        × (s.rpc.avail_cnt ≤ rpc_log_size)
        × ((k : ℕ) → k < s.pipe.spawner.txn_log_id → (now : ℕ) × (s.rpc.log k ≡ some now))
        × (s.pipe.world.processed
            ≡ calls (stamps unset s.rpc) (log + 4) size (schedule count 0 s.pipe.spawned) 0)
  dispatched-arrived time_ns q r log count workers garbage w s hq hr long fits ms =
      let rt = recording t in
      let rs = recording-Sized t size sized in
      let rp = recording-Projects t in
      let done : Recorded W → List (ℕ × ℕ) = λ u. u.processed in
      let v =
        Inv-Moves ring rt unset done add_call rp (log + 4) size count rs [] long fits _ s
          (start-Inv ring rt unset done add_call rp size rs time_ns q r log count workers garbage
            (blank w) hq hr)
          ms in
      let below =
        spawned-within ring rt unset done add_call rp (log + 4) size count rs [] s.pipe s.seen
          v.flow v.taken in
      let level = v.valid.counted in
      let full = v.valid.in_log in
      let at = v.place.spawn_at.at_log in
      (
        omega (arith, below, v.seen_in, at),
        omega (arith, level, full),
        λ k h. v.valid.stamped k (omega (arith, below, v.seen_in, at, level)),
        v.place.executed
            ∙ execute-calls (stamps unset s.rpc) (log + 4) size (schedule count 0 s.pipe.spawned) 0
                [],
      )
