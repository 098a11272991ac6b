-- ===== src/Stages/Drain.antt =====
-- That the stages dispatch every request that RPCHandler counts, in a bounded number of steps.
use doradd_storage.Base.{
  ℕ, ◌+◌, ◌*◌, ◌≤◌, ◌<◌, ◌≡◌, ◌⊎◌, refl, ap, sym, [], ◌∷◌, inl, inr, arith, false, u32_mod, dec_lt,
  subst,
}
use doradd_storage.Config.{max_batch, rpc_log_size}
use doradd_storage.Txn.{TxnType, Sized}
use doradd_storage.Dispatch.Replay.{Projects}
use doradd_storage.Dispatch.Schedule.{total}
use doradd_storage.Stages.{Garbage, Spawner, spawn_stops}
use doradd_storage.Stages.Ring.{SpscQueue}
use doradd_storage.Stages.Pipeline.{build, Step}
use doradd_storage.Stages.Work.{Worked, Worked-Step, Worked-few}
use doradd_storage.Stages.Progress.{Idle-or_Passes, index_batch-takes}
use doradd_storage.Stages.Arrivals.{Inv, Inv-Moves, start-Inv, spawned-within}
use doradd_storage.Stages.Joint.{
  Joint, start, stamps, Move, Moves, stages_of, stage_steps, Coherent,
}

spawn_stops-never : (x : Spawner) → x.txn_log_id ≤ rpc_log_size → spawn_stops x ≡ false
unfolding spawn_stops
spawn_stops-never x h = ground arith

module _ {Q W : Type 0} (ring : SpscQueue Q) (t : TxnType W) (unset : ℕ → ℕ) where
  Worked-Moves :
      (s s' : Joint Q W) (ms : Moves ring t unset s s')
      → Worked 0 s.pipe
      → Worked (stage_steps ring t ms) s'.pipe
  Worked-Moves s s' Moves.here k = k
  Worked-Moves s s' (Moves.then {u} ms (Move.arrive tick e)) k =
      rw e (subst (λ n. Worked n u.pipe) (omega arith) (Worked-Moves s u ms k))
  Worked-Moves s s' (Moves.then {u} ms (Move.stage {p} st all h e)) k =
      rw e (Worked-Step ring t (stage_steps ring t ms) u.pipe p st (Worked-Moves s u ms k))

  start-Worked :
      (time_ns : ℕ) (q r : Q) (log count workers : ℕ) (garbage : Garbage) (w : W)
      → Worked 0 (start time_ns q r log count workers garbage w).pipe
  unfolding start build
  start-Worked time_ns q r log count workers garbage w = record {
    steps = refl;
    index_phases = inl refl;
    spawn_phases = inl refl;
  }

  -- A stage can make a step.
  abbrev pub Stirs : Joint Q W → Type 0
  Stirs s = (s' : Joint Q W) × (m : Move ring t unset s s') × (stages_of ring t m ≡ 1)

-- The view that sees nothing of the world.
unseen : {W : Type 0} (t : TxnType W) → Projects {S = Unit} t (λ w. tt) (λ a s x. tt)
unseen t = record {
  prepare_quiet = λ a w. refl;
  prefetch_quiet = λ a w. refl;
  process_exec = λ a s w. refl;
}

module _ {Q W : Type 0} (ring : SpscQueue Q) (t : TxnType W) (unset : ℕ → ℕ) (size : ℕ)
    (sized : Sized t size) where
  -- The invariant of the model, with nothing said of the world.
  abbrev Sound : ℕ → ℕ → Joint Q W → Type 0
  Sound log c = Inv ring t unset (λ w. tt) (λ a s x. tt) (unseen t) (log + 4) size c sized tt

  Sound-runs : (log c : ℕ) (s : Joint Q W) → Sound log c s → spawn_stops s.pipe.spawner ≡ false
  Sound-runs log c s v =
      let level = v.valid.counted in
      let full = v.valid.in_log in
      let at = v.place.spawn_at.at_log in
      let below =
        spawned-within ring t unset (λ w. tt) (λ a s x. tt) (unseen t) (log + 4) size c sized tt
          s.pipe s.seen v.flow v.taken in
      spawn_stops-never s.pipe.spawner (omega (arith, at, below, v.seen_in, level, full))

  Sound-Stirs :
      (log c n : ℕ) (s : Joint Q W)
      → Sound log c s
      → Worked n s.pipe
      → (s.pipe.spawner.txn_log_id ≡ s.rpc.avail_cnt) ⊎ Stirs ring t unset s
  Sound-Stirs log c n s v k =
      let level = v.valid.counted in
      let full = v.valid.in_log in
      let at = v.place.spawn_at.at_log in
      let taken = v.taken.counted in
      let below =
        spawned-within ring t unset (λ w. tt) (λ a s x. tt) (unseen t) (log + 4) size c sized tt
          s.pipe s.seen v.flow v.taken in
      let go = Sound-runs log c s v in
      elim (Idle-or_Passes ring t (stamps unset s.rpc) s.pipe n v.flow k go) [
        | inl idle ↦ elim (dec_lt s.pipe.spawner.txn_log_id s.rpc.avail_cnt) [
          | yes more ↦
              let done = ap total idle.no_batch in
              let (x, w, e) =
                index_batch-takes t s.pipe.indexer s.pipe.world s.rpc.avail_cnt
                  (omega (arith, taken, done, at, more)) (omega (arith, level, full)) in
              inr (
                _,
                Move.stage (Step.index (s.rpc.avail_cnt ∷ []) [] x w idle.ready e refl) refl
                    (v.seen_in, omega arith) refl,
                refl,
              )
          | no none_left ↦ inl (omega (arith, at, below, v.seen_in, none_left))
        ]
        | inr (u, st, all, loads) ↦ inr (
          _,
          Move.stage st all (subst (λ l. Coherent s.seen l s.rpc.avail_cnt) (sym loads) v.seen_in)
              refl,
          refl,
        )
      ]

  Moves-Sound :
      (time_ns : ℕ) (q r : Q) (log count workers : ℕ) (garbage : Garbage) (w : W) (s : Joint Q W)
      → ring.to_list q ≡ []
      → ring.to_list r ≡ []
      → max_batch ≤ count
      → count < u32_mod
      → Moves ring t unset (start time_ns q r log count workers garbage w) s
      → Sound log count s
  Moves-Sound time_ns q r log count workers garbage w s hq hr long fits ms =
      Inv-Moves ring t unset (λ w. tt) (λ a s x. tt) (unseen t) (log + 4) size count sized tt long
        fits _ s
        (start-Inv ring t unset (λ w. tt) (λ a s x. tt) (unseen t) size sized time_ns q r log count
          workers garbage w hq hr)
        ms

  -- For a log of at least MAX_BATCH and fewer than 2^32 entries and rings that are empty at first, in
  -- every state that the handler and the stages reach, in any interleaving: either all the requests that
  -- the handler has counted are dispatched, or a stage can make a step, so that the rings, however
  -- short, never make the stages wait for one another in a circle; and the Spawner's test for the end of
  -- its loop fails.
  pub stages-Stirs :
      (time_ns : ℕ) (q r : Q) (log count workers : ℕ) (garbage : Garbage) (w : W) (s : Joint Q W)
      → ring.to_list q ≡ []
      → ring.to_list r ≡ []
      → max_batch ≤ count
      → count < u32_mod
      → Moves ring t unset (start time_ns q r log count workers garbage w) s
      → ((s.pipe.spawner.txn_log_id ≡ s.rpc.avail_cnt) ⊎ Stirs ring t unset s)
        × (spawn_stops s.pipe.spawner ≡ false)
  stages-Stirs time_ns q r log count workers garbage w s hq hr long fits ms =
      let v = Moves-Sound time_ns q r log count workers garbage w s hq hr long fits ms in
      let worked =
        Worked-Moves ring t unset _ s ms
          (start-Worked ring t unset time_ns q r log count workers garbage w) in
      (Sound-Stirs log count (stage_steps ring t ms) s v worked, Sound-runs log count s v)

  -- For a log of at least MAX_BATCH and fewer than 2^32 entries and rings that are empty at first, in
  -- every interleaving the stages make at most seven steps for each request that is counted.
  pub stage_steps-few :
      (time_ns : ℕ) (q r : Q) (log count workers : ℕ) (garbage : Garbage) (w : W) (s : Joint Q W)
      → ring.to_list q ≡ []
      → ring.to_list r ≡ []
      → max_batch ≤ count
      → count < u32_mod
      → (ms : Moves ring t unset (start time_ns q r log count workers garbage w) s)
      → stage_steps ring t ms ≤ 7 * s.rpc.avail_cnt
  stage_steps-few time_ns q r log count workers garbage w s hq hr long fits ms =
      let v = Moves-Sound time_ns q r log count workers garbage w s hq hr long fits ms in
      let worked =
        Worked-Moves ring t unset _ s ms
          (start-Worked ring t unset time_ns q r log count workers garbage w) in
      omega (
        arith,
        Worked-few ring t (stage_steps ring t ms) s.pipe v.flow worked,
        v.taken.covered,
        v.seen_in,
      )
