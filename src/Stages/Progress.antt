-- ===== src/Stages/Progress.antt =====
-- That the stages never wait for one another in a circle.
use mathlib.Core.List.{append-nil}
use doradd_storage.Base.{
  ℕ, ◌<◌, ◌≡◌, ◌⊎◌, refl, sym, ◌∙◌, List, [], ◌∷◌, some, inl, inr, arith, false, Option-cases,
  sub64, add64, u64_mod, dec_lt,
}
use doradd_storage.Config.{max_batch}
use doradd_storage.Txn.{TxnType, walk}
use doradd_storage.Dispatch.{check_avail_cnts, batch_of}
use doradd_storage.Stages.{Indexer, bump, index_rewind, index_batch, spawn_stops}
use doradd_storage.Stages.Ring.{SpscQueue}
use doradd_storage.Stages.Pipeline.{Phase, looking, pushing, popping, Pipe, Step}
use doradd_storage.Stages.Fifo.{Flow}
use doradd_storage.Stages.Work.{Worked}
use doradd_storage.Stages.Joint.{loads_of, unmade_of}

Phase-cases : (p : Phase) → (p ≡ looking) ⊎ ((p ≡ pushing) ⊎ (p ≡ popping))
Phase-cases looking = inl refl
Phase-cases pushing = inr (inl refl)
Phase-cases popping = inr (inr refl)

module _ {Q W : Type 0} (ring : SpscQueue Q) (t : TxnType W) (stamp : ℕ → ℕ) where
  -- A step that loads no count.
  abbrev pub Passes : Pipe Q W → Type 0
  Passes u =
      (v : Pipe Q W) × (st : Step ring t stamp u v) × (unmade_of ring t st ≡ [])
      × (loads_of ring t st ≡ [])

  -- Nothing is under way.
  pub record Idle (u : Pipe Q W) : Type 0 where
    pub ready : u.index_phase ≡ looking
    pub no_batch : u.indexed ≡ u.spawned

  index-Passes :
      (u : Pipe Q W) (n : ℕ)
      → Flow ring t stamp u
      → Worked n u
      → u.spawn_phase ≡ looking
      → ring.to_list u.ring_pref_disp ≡ []
      → u.prefetch_phase ≡ looking
      → ring.to_list u.ring_idx_pref ≡ []
      → Idle u ⊎ Passes u
  index-Passes u n f k sp none_pref fp none_idx = elim k.index_phases [
    | inl ip ↦
        let at_pref : f.queued_pref ≡ [] = sym (rw (none_pref, sp) at f.ring_pref) in
        let at_idx : f.queued_idx ≡ [] = sym (rw (none_idx, fp) at f.ring_idx) in
        inl (record {
          ready = ip;
          no_batch =
              f.all_indexed
              ∙ (rw (at_idx, ip) (append-nil u.fetched))
              ∙ f.all_fetched
              ∙ (rw (at_pref, fp) (append-nil u.spawned));
        })
    | inr ip ↦
        let (q, e) = ring.push-empty_lem u.indexer.batch u.ring_idx_pref none_idx in
        inr (_, Step.index_push q ip e refl, refl, refl)
  ]

  fetch-Passes :
      (u : Pipe Q W) (n : ℕ)
      → Flow ring t stamp u
      → Worked n u
      → u.spawn_phase ≡ looking
      → ring.to_list u.ring_pref_disp ≡ []
      → Idle u ⊎ Passes u
  fetch-Passes u n f k sp none_pref = elim (Phase-cases u.prefetch_phase) [
    | inl fp ↦ elim (Option-cases (ring.front u.ring_idx_pref)) [
      | inl e ↦ index-Passes u n f k sp none_pref fp (ring.front-none_lem u.ring_idx_pref e)
      | inr (m, e) ↦ inr (_, Step.fetch m fp e refl, refl, refl)
    ]
    | inr (inl fp) ↦
        let (q, e) = ring.push-empty_lem u.prefetch_sz u.ring_pref_disp none_pref in
        inr (_, Step.fetch_push q fp e refl, refl, refl)
    | inr (inr fp) ↦ inr (_, Step.fetch_pop fp refl, refl, refl)
  ]

  -- While the Spawner runs, a batch under way is never stuck.
  pub Idle-or_Passes :
      (u : Pipe Q W) (n : ℕ)
      → Flow ring t stamp u
      → Worked n u
      → spawn_stops u.spawner ≡ false
      → Idle u ⊎ Passes u
  Idle-or_Passes u n f k go = elim k.spawn_phases [
    | inl sp ↦ elim (Option-cases (ring.front u.ring_pref_disp)) [
      | inl e ↦ fetch-Passes u n f k sp (ring.front-none_lem u.ring_pref_disp e)
      | inr (m, e) ↦ inr (_, Step.spawn [] m sp go e refl, refl, refl)
    ]
    | inr sp ↦ inr (_, Step.spawn_pop [] sp refl, refl, refl)
  ]

batch_of-takes : (a : ℕ) → 0 < a → (k : ℕ) × (batch_of a ≡ some k)
unfolding batch_of
batch_of-takes a pos = elim (dec_lt a max_batch) [
  | yes less ↦ (a, ground arith)
  | no full ↦ (max_batch, ground arith)
]

check_avail_cnts-takes :
    (handled v k : ℕ)
    → batch_of (sub64 v handled) ≡ some k
    → check_avail_cnts handled (v ∷ []) ≡ some (k, [])
unfolding check_avail_cnts
check_avail_cnts-takes handled v k e = rw (e, check_avail_cnts) refl

handled-index_rewind : (x : Indexer) → (index_rewind x).handled_req_cnt ≡ x.handled_req_cnt
unfolding index_rewind
handled-index_rewind x = ground arith

module _ {W : Type 0} (t : TxnType W) where
  pub index_batch-runs :
      (x : Indexer) (w : W) (loads : List ℕ) (k : ℕ) (rest : List ℕ)
      → check_avail_cnts (index_rewind x).handled_req_cnt loads ≡ some (k, rest)
      → (x' : Indexer) × (w' : W) × (index_batch t x w loads ≡ some (x', w', rest))
  unfolding index_batch
  index_batch-runs x w loads k rest e =
      let x1 = index_rewind x in
      let walked = walk t.prepare_cowns k x1.read_head w in
      (
        record x1 {
          handled_req_cnt = add64 x1.handled_req_cnt k;
          read_idx = bump k x1.read_idx;
          read_head = walked.1;
          batch = k;
        },
        walked.0,
        rw (e, index_batch) refl,
      )

  -- A load above the requests taken so far yields a batch.
  pub index_batch-takes :
      (x : Indexer) (w : W) (v : ℕ)
      → x.handled_req_cnt < v
      → v < u64_mod
      → (x' : Indexer) × (w' : W) × (index_batch t x w (v ∷ []) ≡ some (x', w', []))
  index_batch-takes x w v more small =
      let (k, e) = batch_of-takes (sub64 v x.handled_req_cnt) (omega arith) in
      index_batch-runs x w (v ∷ []) k []
        (rw (handled-index_rewind x) (check_avail_cnts-takes x.handled_req_cnt v k e))
