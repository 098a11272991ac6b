-- ===== src/Stages/Execution.antt =====
-- What every interleaving of the three stages has executed.
use doradd_storage.Base.{
  ℕ, zero, suc, ◌+◌, ◌≤◌, ◌<◌, ◌≡◌, refl, ap, subst, sym, ◌∙◌, List, [], ◌∷◌, ◌++◌, some, inl, inr,
  arith, All, Option-cases, u32_mod, range_from, false, length, length-append,
}
use doradd_storage.Config.{max_batch, rpc_log_size}
use doradd_storage.Txn.{TxnType, Sized, walk, entries, visit}
use doradd_storage.Dispatch.{check_avail_cnts}
use doradd_storage.Dispatch.Order.{next-room}
use doradd_storage.Dispatch.Replay.{
  Projects, execute, execute-append, state-replay, state-visit, length-range_from,
}
use doradd_storage.Dispatch.Schedule.{IsBatch, next, schedule, total}
use doradd_storage.Stages.{
  Indexer, index_rewind, index_batch, prefetch_batch, spawn_batch, spawn_stops, spawn_announce,
  spawn_register, Spawner,
}
use doradd_storage.Stages.Ring.{SpscQueue}
use doradd_storage.Stages.Cursor.{
  cursor, cursor-snoc, schedule-snoc, FetchesAt, SpawnsAt, prefetch_batch_lem, spawn_batch_lem,
}
use doradd_storage.Stages.Pipeline.{Phase, Pipe, Step, Reach}
use doradd_storage.Stages.Fifo.{Flow, Flow-Step, Flow-Reach, fetched-batches, spawned-batches}

pub state-walk :
    {W S : Type 0} (state : W → S) (op : ℕ → W → W × ℕ)
    → ((a : ℕ) (w : W) → state (op a w).0 ≡ state w)
    → (n head : ℕ) (w : W) → state (walk op n head w).0 ≡ state w
unfolding walk
state-walk state op quiet zero head w = refl
state-walk state op quiet (suc n) head w =
    state-walk state op quiet n (head + (op head w).1) (op head w).0 ∙ quiet head w

All-last : (ks : List ℕ) (k : ℕ) → All IsBatch (ks ++ (k ∷ [])) → IsBatch k
All-last [] k h = h.0
All-last (j ∷ ks) k h = All-last ks k h.1

pub total-snoc : (ks : List ℕ) (k : ℕ) → total (ks ++ (k ∷ [])) ≡ total ks + k
total-snoc [] k = omega arith
total-snoc (j ∷ ks) k = omega (arith, total-snoc ks k)

pub length-schedule : (c idx : ℕ) (ks : List ℕ) → length (schedule c idx ks) ≡ total ks
length-schedule c idx [] = refl
length-schedule c idx (k ∷ ks) = omega (
  arith,
  length-append (range_from (next c idx) k) (schedule c (next c idx + k) ks),
  length-range_from k (next c idx),
  length-schedule c (next c idx + k) ks,
)

spawn_announce-SpawnsAt :
    (counters : List ℕ) (top size c i l : ℕ) (x : Spawner)
    → SpawnsAt top size c i l x
    → SpawnsAt top size c i l (spawn_announce counters x)
unfolding spawn_announce
spawn_announce-SpawnsAt counters top size c i l x p = ground arith

spawn_register-SpawnsAt :
    (counters : List ℕ) (top size c i l : ℕ) (x : Spawner)
    → SpawnsAt top size c i l x
    → SpawnsAt top size c i l (spawn_register counters x)
unfolding spawn_register
spawn_register-SpawnsAt counters top size c i l x p = ground arith

spawn_stops_lem : (x : Spawner) → spawn_stops x ≡ false → x.txn_log_id ≤ rpc_log_size
unfolding spawn_stops
spawn_stops_lem x h = ground arith

module _ {W S : Type 0} (t : TxnType W) (state : W → S) (exec : ℕ → ℕ → S → S)
    (p : Projects t state exec) where
  index_batch-state :
      (x x' : Indexer) (w w' : W) (loads rest : List ℕ)
      → index_batch t x w loads ≡ some (x', w', rest)
      → state w' ≡ state w
  unfolding index_batch
  index_batch-state x x' w w' loads rest h =
      elim (Option-cases (check_avail_cnts (index_rewind x).handled_req_cnt loads)) [
        | inl e ↦ absurd (let h' = (rw (e, index_batch) at h) in cc)
        | inr ((k, loads'), e) ↦
            let h' = (rw (e, index_batch) at h) in
            ground (
              arith,
              state-walk state t.prepare_cowns p.prepare_quiet k (index_rewind x).read_head w,
              h',
            )
      ]

module _ {Q W S : Type 0} (ring : SpscQueue Q) (t : TxnType W) (stamp : ℕ → ℕ) (state : W → S)
    (exec : ℕ → ℕ → S → S) (p : Projects t state exec) (top size c : ℕ) (sized : Sized t size)
    (s0 : S) where
  -- The Prefetcher and the Spawner stand behind the batches that they have worked on, within the log,
  -- and the state is that of the dispatched entries, executed one after the other.
  pub record Place (s : Pipe Q W) : Type 0 where
    pub fetch_at : FetchesAt top size c (cursor c 0 s.fetched) s.prefetcher
    pub fetch_in : cursor c 0 s.fetched ≤ c
    pub spawn_at : SpawnsAt top size c (cursor c 0 s.spawned) (total s.spawned) s.spawner
    pub spawn_in : cursor c 0 s.spawned ≤ c
    pub executed : state s.world ≡ execute exec stamp top size (schedule c 0 s.spawned) 0 s0

  -- A step that touches rings and phases only.
  same-Place :
      {s : Pipe Q W}
      → Place s
      → {x : Indexer} {i j k : Phase} {q r : Q} {n m : ℕ} {l : List ℕ}
      → Place (record s {
        indexer = x;
        index_phase = i;
        ring_idx_pref = q;
        prefetch_phase = j;
        prefetch_sz = n;
        ring_pref_disp = r;
        spawn_phase = k;
        spawn_sz = m;
        indexed = l;
      })
  same-Place f = record {
    fetch_at = f.fetch_at;
    fetch_in = f.fetch_in;
    spawn_at = f.spawn_at;
    spawn_in = f.spawn_in;
    executed = f.executed;
  }

  module _ (long : max_batch ≤ c) (fits : c < u32_mod) where
    fetch-Place :
        (s : Pipe Q W) (k : ℕ)
        → IsBatch k
        → Place s
        → FetchesAt top size c
            (cursor c 0 (s.fetched ++ (k ∷ [])))
            (prefetch_batch t k s.prefetcher s.world).0
          × (cursor c 0 (s.fetched ++ (k ∷ [])) ≤ c)
          × (state (prefetch_batch t k s.prefetcher s.world).1 ≡ state s.world)
    fetch-Place s k b f =
        let room = next-room c (cursor c 0 s.fetched) long fits f.fetch_in in
        let (at, w') =
          prefetch_batch_lem t top size c sized k (cursor c 0 s.fetched) s.prefetcher s.world
            f.fetch_at (omega (arith, b.1)) in
        (
          rw (cursor-snoc c 0 s.fetched k) at,
          rw (cursor-snoc c 0 s.fetched k) (omega (arith, b.1)),
          rw w' (state-visit state t.prefetch_cowns p.prefetch_quiet _ s.world),
        )

    spawn-Place :
        (s : Pipe Q W) (counters : List ℕ) (k : ℕ)
        → IsBatch k
        → spawn_stops s.spawner ≡ false
        → Place s
        → SpawnsAt top size c
            (cursor c 0 (s.spawned ++ (k ∷ [])))
            (total (s.spawned ++ (k ∷ [])))
            (spawn_batch t stamp k (spawn_register counters s.spawner) s.world).0
          × (cursor c 0 (s.spawned ++ (k ∷ [])) ≤ c)
          × (state (spawn_batch t stamp k (spawn_register counters s.spawner) s.world).1
              ≡ execute exec stamp top size (schedule c 0 (s.spawned ++ (k ∷ []))) 0 s0)
    spawn-Place s counters k b go f =
        let at_spawner = spawn_register-SpawnsAt counters top size c _ _ s.spawner f.spawn_at in
        let i = cursor c 0 s.spawned in
        let l = total s.spawned in
        let ready = spawn_stops_lem s.spawner go in
        let room = next-room c i long fits f.spawn_in in
        let (at, w') =
          spawn_batch_lem t top size c sized stamp k i l (spawn_register counters s.spawner) s.world
            at_spawner (omega (arith, b.1)) (omega (arith, b.1, f.spawn_at.at_log)) in
        let run = execute exec stamp top size in
        let fetched = visit t.prefetch_cowns (entries top size (next c i) k) s.world in
        (
          rw (cursor-snoc c 0 s.spawned k, total-snoc s.spawned k) at,
          rw (cursor-snoc c 0 s.spawned k) (omega (arith, b.1)),
          rw (w', schedule-snoc c 0 s.spawned k)
              (state-replay t state exec p stamp size top k (next c i) l fetched
                ∙ ap (run (range_from (next c i) k) l)
                    (state-visit state t.prefetch_cowns p.prefetch_quiet _ s.world ∙ f.executed)
                ∙ sym (
                    execute-append exec stamp top size (schedule c 0 s.spawned)
                      (range_from (next c i) k) 0 s0
                    ∙ ap (λ m. run (range_from (next c i) k) m (run (schedule c 0 s.spawned) 0 s0))
                        (let e : 0 + length (schedule c 0 s.spawned) ≡ l =
                            omega (arith, length-schedule c 0 s.spawned) in
                          e))),
        )

    pub Place-Step :
        (s s' : Pipe Q W) → Flow ring t stamp s → Place s → Step ring t stamp s s' → Place s'
    Place-Step s s' g f (Step.index loads rest x w ph run e) = subst Place (sym e) (record {
      fetch_at = f.fetch_at;
      fetch_in = f.fetch_in;
      spawn_at = f.spawn_at;
      spawn_in = f.spawn_in;
      executed = index_batch-state t state exec p s.indexer x s.world w loads rest run ∙ f.executed;
    })
    Place-Step s s' g f (Step.index_push q ph pushed e) = subst Place (sym e) (same-Place f)
    Place-Step s s' g f (Step.fetch k ph got e) =
        let g' = Flow-Step ring t stamp s s' g (Step.fetch k ph got e) in
        let b = All-last s.fetched k (rw e at (fetched-batches ring t stamp s' g')) in
        let (at, inside, world) = fetch-Place s k b f in
        subst Place (sym e) (record {
          fetch_at = at;
          fetch_in = inside;
          spawn_at = f.spawn_at;
          spawn_in = f.spawn_in;
          executed = world ∙ f.executed;
        })
    Place-Step s s' g f (Step.fetch_push q ph pushed e) = subst Place (sym e) (same-Place f)
    Place-Step s s' g f (Step.fetch_pop ph e) = subst Place (sym e) (same-Place f)
    Place-Step s s' g f (Step.spawn counters k ph go got e) =
        let g' = Flow-Step ring t stamp s s' g (Step.spawn counters k ph go got e) in
        let b = All-last s.spawned k (rw e at (spawned-batches ring t stamp s' g')) in
        let (at, inside, world) = spawn-Place s counters k b go f in
        subst Place (sym e) (record {
          fetch_at = f.fetch_at;
          fetch_in = f.fetch_in;
          spawn_at = at;
          spawn_in = inside;
          executed = world;
        })
    Place-Step s s' g f (Step.spawn_pop counters ph e) = subst Place (sym e) (record {
      fetch_at = f.fetch_at;
      fetch_in = f.fetch_in;
      spawn_at = spawn_announce-SpawnsAt counters top size c _ _ s.spawner f.spawn_at;
      spawn_in = f.spawn_in;
      executed = f.executed;
    })

    pub Place-Reach :
        (s s' : Pipe Q W) → Flow ring t stamp s → Place s → Reach ring t stamp s s' → Place s'
    Place-Reach s s' g f Reach.here = f
    Place-Reach s s' g f (Reach.then {u} r st) =
        Place-Step u s' (Flow-Reach ring t stamp s u g r) (Place-Reach s u g f r) st
