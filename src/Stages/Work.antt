-- ===== src/Stages/Work.antt =====
-- How many steps the stages make for a batch, and when one of them can make a step.
use doradd_storage.Base.{
  ℕ, ◌+◌, ◌*◌, ◌≤◌, ◌≡◌, ◌⊎◌, refl, ap, subst, sym, List, [], ◌∷◌, ◌++◌, inl, inr, arith, length,
  length-append, All,
}
use doradd_storage.Txn.{TxnType}
use doradd_storage.Dispatch.Schedule.{IsBatch, total}
use doradd_storage.Stages.Ring.{SpscQueue}
use doradd_storage.Stages.Pipeline.{Phase, looking, pushing, popping, Pipe, Step}
use doradd_storage.Stages.Fifo.{Flow}

-- Whether the batch under work has still to be pushed, or popped.
abbrev pub unpushed : Phase → ℕ
unpushed looking = 0
unpushed pushing = 1
unpushed popping = 0

abbrev pub unpopped : Phase → ℕ
unpopped looking = 0
unpopped pushing = 1
unpopped popping = 1

module _ {Q W : Type 0} where
  -- A pipeline in which `n` steps are made: two for a batch by the Indexer, three by the Prefetcher and
  -- two by the Spawner.
  pub record Worked (n : ℕ) (s : Pipe Q W) : Type 0 where
    pub steps :
        n
          + unpushed s.index_phase
          + unpushed s.prefetch_phase
          + unpopped s.prefetch_phase
          + unpopped s.spawn_phase
        ≡ 2 * length s.indexed + 3 * length s.fetched + 2 * length s.spawned
    pub index_phases : (s.index_phase ≡ looking) ⊎ (s.index_phase ≡ pushing)
    pub spawn_phases : (s.spawn_phase ≡ looking) ⊎ (s.spawn_phase ≡ popping)

length-snoc : (ks : List ℕ) (k : ℕ) → length (ks ++ (k ∷ [])) ≡ length ks + 1
length-snoc ks k = length-append ks (k ∷ [])

module _ {Q W : Type 0} (ring : SpscQueue Q) (t : TxnType W) where
  pub Worked-Step :
      {stamp : ℕ → ℕ} (n : ℕ) (u v : Pipe Q W)
      → Step ring t stamp u v
      → Worked n u
      → Worked (n + 1) v
  Worked-Step n u v (Step.index loads rest x w ph run e) k =
      subst (Worked (n + 1)) (sym e) (record {
        steps = omega (arith, (rw ph at k.steps), length-snoc u.indexed x.batch);
        index_phases = inr refl;
        spawn_phases = k.spawn_phases;
      })
  Worked-Step n u v (Step.index_push q ph pushed e) k = subst (Worked (n + 1)) (sym e) (record {
    steps = omega (arith, (rw ph at k.steps));
    index_phases = inl refl;
    spawn_phases = k.spawn_phases;
  })
  Worked-Step n u v (Step.fetch m ph got e) k = subst (Worked (n + 1)) (sym e) (record {
    steps = omega (arith, (rw ph at k.steps), length-snoc u.fetched m);
    index_phases = k.index_phases;
    spawn_phases = k.spawn_phases;
  })
  Worked-Step n u v (Step.fetch_push q ph pushed e) k = subst (Worked (n + 1)) (sym e) (record {
    steps = omega (arith, (rw ph at k.steps));
    index_phases = k.index_phases;
    spawn_phases = k.spawn_phases;
  })
  Worked-Step n u v (Step.fetch_pop ph e) k = subst (Worked (n + 1)) (sym e) (record {
    steps = omega (arith, (rw ph at k.steps));
    index_phases = k.index_phases;
    spawn_phases = k.spawn_phases;
  })
  Worked-Step n u v (Step.spawn counters m ph go got e) k = subst (Worked (n + 1)) (sym e) (record {
    steps = omega (arith, (rw ph at k.steps), length-snoc u.spawned m);
    index_phases = k.index_phases;
    spawn_phases = inr refl;
  })
  Worked-Step n u v (Step.spawn_pop counters ph e) k = subst (Worked (n + 1)) (sym e) (record {
    steps = omega (arith, (rw ph at k.steps));
    index_phases = k.index_phases;
    spawn_phases = inl refl;
  })

length-total : (ks : List ℕ) → All IsBatch ks → length ks ≤ total ks
length-total [] h = omega arith
length-total (k ∷ ks) (pos, rest) = omega (arith, pos.0, length-total ks rest)

-- A batch is dispatched in seven steps.
module _ {Q W : Type 0} (ring : SpscQueue Q) (t : TxnType W) where
  pub Worked-few :
      {stamp : ℕ → ℕ} (n : ℕ) (u : Pipe Q W)
      → Flow ring t stamp u
      → Worked n u
      → n ≤ 7 * total u.indexed
  Worked-few n u h k = omega (
    arith,
    k.steps,
    length-total u.indexed h.batches,
    ap length h.all_indexed,
    length-append u.fetched _,
    ap length h.all_fetched,
    length-append u.spawned _,
  )
