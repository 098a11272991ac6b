-- ===== src/Stages/Fifo.antt =====
-- What every interleaving of the three stages keeps.
use mathlib.Core.List.{append_assoc, append-nil}
use doradd_storage.Base.{
  ℕ, ◌+◌, ◌≤◌, ◌≡◌, refl, ap, subst, sym, ◌∙◌, List, [], ◌∷◌, ◌++◌, some, inl, inr, arith, All,
  All-append, length, length-append, Option-cases,
}
use doradd_storage.Txn.{TxnType}
use doradd_storage.Dispatch.{check_avail_cnts}
use doradd_storage.Dispatch.Batch.{check_avail_cnts_lem}
use doradd_storage.Dispatch.Schedule.{IsBatch, total}
use doradd_storage.Stages.{Garbage, Indexer, index_rewind, index_batch}
use doradd_storage.Stages.Ring.{SpscQueue}
use doradd_storage.Stages.Pipeline.{Phase, looking, pushing, popping, Pipe, build, Step, Reach}

-- The batch that a stage has taken and not yet popped, and the one that it has not yet pushed.
abbrev pub held : Phase → ℕ → List ℕ
held looking k = []
held pushing k = k ∷ []
held popping k = k ∷ []

abbrev pub pending : Phase → ℕ → List ℕ
pending looking k = []
pending pushing k = k ∷ []
pending popping k = []

pending_short : (p : Phase) (k : ℕ) → length (pending p k) ≤ 1
pending_short looking k = omega arith
pending_short pushing k = omega arith
pending_short popping k = omega arith

pub All-left {ℓ κ} : {A : Type ℓ} (P : A → Type κ) (xs ys : List A) → All P (xs ++ ys) → All P xs
All-left P [] ys h = tt
All-left P (x ∷ xs) ys h = (h.0, All-left P xs ys h.1)

in_flight :
    (p : Phase) (k : ℕ) (h : Phase) (j : ℕ) (queued content : List ℕ)
    → content ≡ held h j ++ queued
    → length (queued ++ pending p k) ≤ length content + 1
in_flight p k h j queued content e = omega (
  arith,
  length-append queued (pending p k),
  ap length e,
  length-append (held h j) queued,
  pending_short p k,
)

module _ {W : Type 0} (t : TxnType W) where
  pub index_batch-IsBatch :
      (x x' : Indexer) (w w' : W) (loads rest : List ℕ)
      → index_batch t x w loads ≡ some (x', w', rest)
      → IsBatch x'.batch
  unfolding index_batch
  index_batch-IsBatch x x' w w' loads rest h =
      elim (Option-cases (check_avail_cnts (index_rewind x).handled_req_cnt loads)) [
        | inl e ↦ absurd (let h' = (rw (e, index_batch) at h) in cc)
        | inr ((k, loads'), e) ↦
            let h' = (rw (e, index_batch) at h) in
            ground (arith, check_avail_cnts_lem (index_rewind x).handled_req_cnt loads e, h')
      ]

total-append : (ks js : List ℕ) → total (ks ++ js) ≡ total ks + total js
total-append [] js = omega arith
total-append (k ∷ ks) js = omega (arith, total-append ks js)

module _ {Q W : Type 0} (ring : SpscQueue Q) (t : TxnType W) (stamp : ℕ → ℕ) where
  open ring use {to_list, front_lem, push_lem, pop_lem}

  -- Every batch is in one place: done by the next stage, in the ring between, or about to be pushed.
  pub record Flow (s : Pipe Q W) : Type 0 where
    pub queued_idx : List ℕ
    pub queued_pref : List ℕ
    pub ring_idx : to_list s.ring_idx_pref ≡ held s.prefetch_phase s.prefetch_sz ++ queued_idx
    pub ring_pref : to_list s.ring_pref_disp ≡ held s.spawn_phase s.spawn_sz ++ queued_pref
    pub all_indexed : s.indexed ≡ s.fetched ++ (queued_idx ++ pending s.index_phase s.indexer.batch)
    pub all_fetched :
        s.fetched ≡ s.spawned ++ (queued_pref ++ pending s.prefetch_phase s.prefetch_sz)
    pub batches : All IsBatch s.indexed

  pub Flow-Step : (s s' : Pipe Q W) → Flow s → Step ring t stamp s s' → Flow s'
  Flow-Step s s' f (Step.index loads rest x w ph run e) = subst Flow (sym e) (record {
    queued_idx = f.queued_idx;
    queued_pref = f.queued_pref;
    ring_idx = f.ring_idx;
    ring_pref = f.ring_pref;
    all_indexed = rw (f.all_indexed, ph) (simp (append_assoc, append-nil));
    all_fetched = f.all_fetched;
    batches =
        All-append IsBatch s.indexed (x.batch ∷ []) f.batches
          (index_batch-IsBatch t s.indexer x s.world w loads rest run, tt);
  })
  Flow-Step s s' f (Step.index_push q ph pushed e) = subst Flow (sym e) (record {
    queued_idx = f.queued_idx ++ (s.indexer.batch ∷ []);
    queued_pref = f.queued_pref;
    ring_idx = push_lem _ _ q pushed ∙ rw f.ring_idx (simp append_assoc);
    ring_pref = f.ring_pref;
    all_indexed = rw (f.all_indexed, ph) (simp (append_assoc, append-nil));
    all_fetched = f.all_fetched;
    batches = f.batches;
  })
  Flow-Step s s' f (Step.fetch k ph got e) =
      let (l, content) = front_lem _ k got in
      let queue : f.queued_idx ≡ k ∷ l = (rw ph at (sym f.ring_idx)) ∙ content in
      subst Flow (sym e) (record {
        queued_idx = l;
        queued_pref = f.queued_pref;
        ring_idx = content;
        ring_pref = f.ring_pref;
        all_indexed = rw (f.all_indexed, queue) (simp (append_assoc));
        all_fetched = rw (f.all_fetched, ph) (simp (append_assoc, append-nil));
        batches = f.batches;
      })
  Flow-Step s s' f (Step.fetch_push q ph pushed e) = subst Flow (sym e) (record {
    queued_idx = f.queued_idx;
    queued_pref = f.queued_pref ++ (s.prefetch_sz ∷ []);
    ring_idx = rw ph at f.ring_idx;
    ring_pref = push_lem _ _ q pushed ∙ rw f.ring_pref (simp append_assoc);
    all_indexed = f.all_indexed;
    all_fetched = rw (f.all_fetched, ph) (simp (append_assoc, append-nil));
    batches = f.batches;
  })
  Flow-Step s s' f (Step.fetch_pop ph e) = subst Flow (sym e) (record {
    queued_idx = f.queued_idx;
    queued_pref = f.queued_pref;
    ring_idx = pop_lem _ _ _ (rw ph at f.ring_idx);
    ring_pref = f.ring_pref;
    all_indexed = f.all_indexed;
    all_fetched = rw ph at f.all_fetched;
    batches = f.batches;
  })
  Flow-Step s s' f (Step.spawn counters k ph go got e) =
      let (l, content) = front_lem _ k got in
      let queue : f.queued_pref ≡ k ∷ l = (rw ph at (sym f.ring_pref)) ∙ content in
      subst Flow (sym e) (record {
        queued_idx = f.queued_idx;
        queued_pref = l;
        ring_idx = f.ring_idx;
        ring_pref = content;
        all_indexed = f.all_indexed;
        all_fetched = rw (f.all_fetched, queue) (simp (append_assoc));
        batches = f.batches;
      })
  Flow-Step s s' f (Step.spawn_pop counters ph e) = subst Flow (sym e) (record {
    queued_idx = f.queued_idx;
    queued_pref = f.queued_pref;
    ring_idx = f.ring_idx;
    ring_pref = pop_lem _ _ _ (rw ph at f.ring_pref);
    all_indexed = f.all_indexed;
    all_fetched = f.all_fetched;
    batches = f.batches;
  })

  pub Flow-Reach : (s s' : Pipe Q W) → Flow s → Reach ring t stamp s s' → Flow s'
  Flow-Reach s s' f Reach.here = f
  Flow-Reach s s' f (Reach.then {u} r st) = Flow-Step u s' (Flow-Reach s u f r) st

  pub build-Flow :
      (q r : Q) (log count workers : ℕ) (garbage : Garbage) (w : W)
      → to_list q ≡ []
      → to_list r ≡ []
      → Flow (build q r log count workers garbage w)
  unfolding build
  build-Flow q r log count workers garbage w hq hr = record {
    queued_idx = [];
    queued_pref = [];
    ring_idx = hq;
    ring_pref = hr;
    all_indexed = refl;
    all_fetched = refl;
    batches = tt;
  }

  pub fetched-batches : (s : Pipe Q W) → Flow s → All IsBatch s.fetched
  fetched-batches s f = All-left IsBatch s.fetched _ (rw f.all_indexed at f.batches)

  pub spawned-batches : (s : Pipe Q W) → Flow s → All IsBatch s.spawned
  spawned-batches s f = All-left IsBatch s.spawned _ (rw f.all_fetched at (fetched-batches s f))

  -- What is dispatched has been indexed.
  pub indexed-covers : (s : Pipe Q W) → Flow s → total s.spawned ≤ total s.indexed
  indexed-covers s f = omega (
    arith,
    ap total f.all_indexed,
    total-append s.fetched _,
    ap total f.all_fetched,
    total-append s.spawned _,
  )

  -- In every interleaving the batches that are dispatched are the first of those that are prefetched,
  -- and these the first of those that are indexed: none is lost, repeated or overtaken, and what is
  -- under way between two stages is at most one batch more than the content of the ring.
  pub Reach-in_order :
      (s s' : Pipe Q W)
      → Flow s
      → Reach ring t stamp s s'
      → ((rest : List ℕ) × (s'.indexed ≡ s'.fetched ++ rest)
          × (length rest ≤ length (to_list s'.ring_idx_pref) + 1))
        × ((rest : List ℕ) × (s'.fetched ≡ s'.spawned ++ rest)
            × (length rest ≤ length (to_list s'.ring_pref_disp) + 1))
  Reach-in_order s s' f r =
      let g = Flow-Reach s s' f r in
      (
        (
          g.queued_idx ++ pending s'.index_phase s'.indexer.batch,
          g.all_indexed,
          in_flight s'.index_phase s'.indexer.batch s'.prefetch_phase s'.prefetch_sz g.queued_idx _
              g.ring_idx,
        ),
        (
          g.queued_pref ++ pending s'.prefetch_phase s'.prefetch_sz,
          g.all_fetched,
          in_flight s'.prefetch_phase s'.prefetch_sz s'.spawn_phase s'.spawn_sz g.queued_pref _
              g.ring_pref,
        ),
      )
