-- ===== src/Stages/Prepares.antt =====
-- Which calls of `prepare_cowns` the Indexer has made, as long as the log has room.
use doradd_storage.Base.{
  ℕ, zero, suc, ◌+◌, ◌≤◌, ◌<◌, ◌≡◌, ◌⊎◌, refl, ap, subst, sym, ◌∙◌, List, [], ◌∷◌, ◌++◌, some, inl,
  inr, arith, Option-cases, u32_mod, false,
}
use doradd_storage.Config.{max_batch}
use doradd_storage.Txn.{TxnType, Sized, walk, walk-entries, entries, entry_addr}
use doradd_storage.Dispatch.{check_avail_cnts}
use doradd_storage.Dispatch.Schedule.{IsBatch, total}
use doradd_storage.Stages.{
  Garbage, Indexer, Prefetcher, Spawner, index_batch, index_wraps, index_rewind, bump,
  prefetch_batch, prefetch_rewind, spawn_batch, spawn_loop, spawn_rewind, new_indexer,
}
use doradd_storage.Stages.Ring.{SpscQueue}
use doradd_storage.Stages.Cursor.{bump_lem}
use doradd_storage.Stages.Pipeline.{Pipe, Step, Reach, build}
use doradd_storage.Stages.Fifo.{index_batch-IsBatch}
use doradd_storage.Stages.Execution.{state-walk, total-snoc}
use doradd_storage.Stages.Recording.{Recorded, recording, blank, visit-prepared, entries-append}

pub index_rewind-same :
    (x : Indexer) → index_wraps x.read_idx x.read_count x.batch ≡ false → index_rewind x ≡ x
unfolding index_rewind
index_rewind-same x h = rw h refl

-- No batch behind fewer requests than fill the log starts it over.
index_wraps-room :
    (c idx batch : ℕ)
    → c < u32_mod
    → idx + max_batch ≤ c
    → (idx ≡ 0) ⊎ (batch ≤ max_batch)
    → index_wraps idx c batch ≡ false
unfolding index_wraps
index_wraps-room c idx batch fits room (inl h) = ground arith
index_wraps-room c idx batch fits room (inr h) = ground arith

module _ {W : Type 0} (t : TxnType W) where
  pub index_batch-same :
      (x x' : Indexer) (w w' : W) (loads rest : List ℕ)
      → index_rewind x ≡ x
      → index_batch t x w loads ≡ some (x', w', rest)
      → (w' ≡ (walk t.prepare_cowns x'.batch x.read_head w).0)
        × (x'.read_head ≡ (walk t.prepare_cowns x'.batch x.read_head w).1)
        × (x'.read_idx ≡ bump x'.batch x.read_idx)
        × (x'.read_count ≡ x.read_count)
  unfolding index_batch
  index_batch-same x x' w w' loads rest same h =
      elim (Option-cases (check_avail_cnts x.handled_req_cnt loads)) [
        | inl e ↦ absurd (let h' = (rw (same, e, index_batch) at h) in cc)
        | inr ((k, loads'), e) ↦
            let h' = (rw (same, e, index_batch) at h) in
            (ground (arith, h'), ground (arith, h'), ground (arith, h'), ground (arith, h'))
      ]

  prefetch_batch-prepared :
      (k : ℕ) (x : Prefetcher) (r : Recorded W)
      → (prefetch_batch (recording t) k x r).1.prepared ≡ r.prepared
  unfolding prefetch_batch
  prefetch_batch-prepared k x r =
      state-walk (λ u. u.prepared) (recording t).prefetch_cowns (λ a u. refl) k
        (prefetch_rewind x).read_head r

  spawn_loop-prepared :
      (stamp : ℕ → ℕ) (k : ℕ) (x : Spawner) (r : Recorded W)
      → (spawn_loop (recording t) stamp k x r).1.prepared ≡ r.prepared
  unfolding spawn_loop
  spawn_loop-prepared stamp zero x r = refl
  spawn_loop-prepared stamp (suc k) x r = spawn_loop-prepared stamp k _ _

  spawn_batch-prepared :
      (stamp : ℕ → ℕ) (k : ℕ) (x : Spawner) (r : Recorded W)
      → (spawn_batch (recording t) stamp k x r).1.prepared ≡ r.prepared
  unfolding spawn_batch
  spawn_batch-prepared stamp k x r =
      spawn_loop-prepared stamp k _ _
      ∙ state-walk (λ u. u.prepared) (recording t).prefetch_cowns (λ a u. refl) k
          (spawn_rewind x).prepare_read_head r

module _ {Q W : Type 0} (ring : SpscQueue Q) (t : TxnType W) (stamp : ℕ → ℕ) (top size c : ℕ)
    (sized : Sized t size) where
  -- The Indexer stands behind the entries that it has indexed, and has prepared each of them.
  pub record Prepares (s : Pipe Q (Recorded W)) : Type 0 where
    pub same_count : s.indexer.read_count ≡ c
    pub at_idx : s.indexer.read_idx ≡ total s.indexed
    pub at_head : s.indexer.read_head ≡ entry_addr top size (total s.indexed)
    pub small : (s.indexer.read_idx ≡ 0) ⊎ (s.indexer.batch ≤ max_batch)
    pub calls : s.world.prepared ≡ entries top size 0 (total s.indexed)

  Step-grows :
      (u v : Pipe Q (Recorded W))
      → Step ring (recording t) stamp u v
      → total u.indexed ≤ total v.indexed
  Step-grows u v (Step.index loads rest x w ph run e) =
      rw e (omega (arith, total-snoc u.indexed x.batch))
  Step-grows u v (Step.index_push q ph pushed e) = rw e (omega arith)
  Step-grows u v (Step.fetch k ph got e) = rw e (omega arith)
  Step-grows u v (Step.fetch_push q ph pushed e) = rw e (omega arith)
  Step-grows u v (Step.fetch_pop ph e) = rw e (omega arith)
  Step-grows u v (Step.spawn counters k ph go got e) = rw e (omega arith)
  Step-grows u v (Step.spawn_pop counters ph e) = rw e (omega arith)

  same-Prepares :
      (u v : Pipe Q (Recorded W))
      → Prepares u
      → v.indexer ≡ u.indexer
      → v.indexed ≡ u.indexed
      → v.world.prepared ≡ u.world.prepared
      → Prepares v
  same-Prepares u v p same_x same_l same_w = record {
    same_count = rw same_x p.same_count;
    at_idx = rw (same_x, same_l) p.at_idx;
    at_head = rw (same_x, same_l) p.at_head;
    small = rw same_x p.small;
    calls = rw (same_w, same_l) p.calls;
  }

  module _ (fits : c < u32_mod) where
    index-Prepares :
        (u : Pipe Q (Recorded W)) (x : Indexer) (w : Recorded W) (loads rest : List ℕ)
        → Prepares u
        → index_batch (recording t) u.indexer u.world loads ≡ some (x, w, rest)
        → total (u.indexed ++ (x.batch ∷ [])) + 3 ≤ c
        → (x.read_count ≡ c)
          × (x.read_idx ≡ total (u.indexed ++ (x.batch ∷ [])))
          × (x.read_head ≡ entry_addr top size (total (u.indexed ++ (x.batch ∷ []))))
          × (x.batch ≤ max_batch)
          × (w.prepared ≡ entries top size 0 (total (u.indexed ++ (x.batch ∷ []))))
    index-Prepares u x w loads rest p run room =
        let n = total u.indexed in
        let k = x.batch in
        let sum = total-snoc u.indexed k in
        let (pos, few) : IsBatch k =
          index_batch-IsBatch (recording t) u.indexer x u.world w loads rest run in
        let at = p.at_idx in
        let count = p.same_count in
        let stays : index_wraps u.indexer.read_idx u.indexer.read_count u.indexer.batch ≡ false =
          rw count
            (index_wraps-room c u.indexer.read_idx u.indexer.batch fits (omega arith) p.small) in
        let (world, head, idx, count') =
          index_batch-same (recording t) u.indexer x u.world w loads rest
            (index_rewind-same u.indexer stays) run in
        let walked =
          walk-entries (recording t).prepare_cowns size (λ a r. sized.prepare_size a r.world) top k
            n u.indexer.read_head u.world p.at_head in
        let bumped = bump_lem k u.indexer.read_idx (omega arith) in
        (
          count' ∙ count,
          omega (arith, idx, bumped),
          head ∙ ap (λ y. y.1) walked ∙ ap (entry_addr top size) (sym sum),
          few,
          ap (λ r. r.prepared) (world ∙ ap (λ y. y.0) walked)
              ∙ visit-prepared t (entries top size n k) u.world
              ∙ ap (λ l. l ++ entries top size n k) p.calls
              ∙ entries-append top size 0 n k n _ (omega arith) sum,
        )

    Prepares-Step :
        (u v : Pipe Q (Recorded W))
        → Step ring (recording t) stamp u v
        → total v.indexed + 3 ≤ c
        → Prepares u
        → Prepares v
    Prepares-Step u v (Step.index loads rest x w ph run e) room p =
        let (count, idx, head, few, done) = index-Prepares u x w loads rest p run (rw e at room) in
        subst Prepares (sym e) (record {
          same_count = count;
          at_idx = idx;
          at_head = head;
          small = inr few;
          calls = done;
        })
    Prepares-Step u v (Step.index_push q ph pushed e) room p =
        subst Prepares (sym e) (same-Prepares u _ p refl refl refl)
    Prepares-Step u v (Step.fetch k ph got e) room p =
        subst Prepares (sym e)
          (same-Prepares u _ p refl refl (prefetch_batch-prepared t k u.prefetcher u.world))
    Prepares-Step u v (Step.fetch_push q ph pushed e) room p =
        subst Prepares (sym e) (same-Prepares u _ p refl refl refl)
    Prepares-Step u v (Step.fetch_pop ph e) room p =
        subst Prepares (sym e) (same-Prepares u _ p refl refl refl)
    Prepares-Step u v (Step.spawn counters k ph go got e) room p =
        subst Prepares (sym e)
          (same-Prepares u _ p refl refl (spawn_batch-prepared t stamp k _ u.world))
    Prepares-Step u v (Step.spawn_pop counters ph e) room p =
        subst Prepares (sym e) (same-Prepares u _ p refl refl refl)

    pub Prepares-Reach :
        (s v : Pipe Q (Recorded W))
        → Reach ring (recording t) stamp s v
        → total v.indexed + 3 ≤ c
        → Prepares s
        → Prepares v
    Prepares-Reach s v Reach.here room p = p
    Prepares-Reach s v (Reach.then {u} r st) room p =
        let less = Step-grows u v st in
        Prepares-Step u v st room (Prepares-Reach s u r (omega arith) p)

  pub build-Prepares :
      (q r : Q) (log workers : ℕ) (garbage : Garbage) (w : W)
      → top ≡ log + 4
      → Prepares (build q r log c workers garbage (blank w))
  unfolding build new_indexer
  build-Prepares q r log workers garbage w e = record {
    same_count = refl;
    at_idx = refl;
    at_head = omega (arith, e);
    small = inl refl;
    calls = refl;
  }
