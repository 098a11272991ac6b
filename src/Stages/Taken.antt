-- ===== src/Stages/Taken.antt =====
-- What the loads of the count allow the Indexer to take, and what the Spawner's reads of the time
-- stamps depend on, when RPCHandler runs beside them.
use doradd_storage.Base.{
  ℕ, ◌+◌, ◌≤◌, ◌<◌, ◌≡◌, refl, ap, subst, sym, ◌∙◌, List, [], ◌∷◌, some, inl, inr, arith,
  Option-cases, sub64, add64, u64_mod, length,
}
use doradd_storage.Config.{rpc_log_size}
use doradd_storage.Txn.{TxnType, entry_addr}
use doradd_storage.Dispatch.{check_avail_cnts, batch_of}
use doradd_storage.Dispatch.Batch.{batch_of_lem}
use doradd_storage.Dispatch.Replay.{execute}
use doradd_storage.Dispatch.Schedule.{total}
use doradd_storage.Rpc.{RpcHandler, step}
use doradd_storage.Rpc.Stamps.{step_at-keeps}
use doradd_storage.Stages.{Indexer, index_rewind, index_batch}
use doradd_storage.Stages.Ring.{SpscQueue}
use doradd_storage.Stages.Pipeline.{Pipe, Step}
use doradd_storage.Stages.Fifo.{Flow}
use doradd_storage.Stages.Execution.{total-snoc}
use doradd_storage.Stages.Joint.{stamps, Coherent, last_load, loads_of, unmade_of}

pub last_load-Coherent :
    (seen : ℕ) (loads : List ℕ) (count : ℕ)
    → Coherent seen loads count
    → (seen ≤ last_load seen loads) × (last_load seen loads ≤ count)
last_load-Coherent seen [] count h = (omega arith, h)
last_load-Coherent seen (v ∷ loads) count (h, hs) =
    let (above, below) = last_load-Coherent v loads count hs in (omega arith, below)

-- A batch is covered by the last load that was made for it.
check_avail_cnts-covered :
    (handled seen count : ℕ) (loads : List ℕ) {k : ℕ}
    → handled ≤ seen
    → Coherent seen loads count
    → count < u64_mod
    → check_avail_cnts handled loads ≡ some (k, [])
    → handled + k ≤ last_load seen loads
unfolding check_avail_cnts
check_avail_cnts-covered handled seen count [] le h small e = absurd (cc)
check_avail_cnts-covered handled seen count (v ∷ loads) {k} le (h, hs) small e =
    let (above, below) = last_load-Coherent v loads count hs in
    elim (Option-cases (batch_of (sub64 v handled))) [
      | inl none_yet ↦
          check_avail_cnts-covered handled v count loads (omega arith) hs small
            (rw (none_yet, check_avail_cnts) at e)
      | inr (a, some_now) ↦
          let (pos, few, within) = batch_of_lem (sub64 v handled) a some_now in
          let same : k ≡ a = ground (arith, (rw (some_now, check_avail_cnts) at e)) in
          omega (arith, within, same)
    ]

-- The reads of the slots below `n` decide what `n` executions do.
pub execute-agree :
    {S : Type 0} (exec : ℕ → ℕ → S → S) (f g : ℕ → ℕ) (top size n : ℕ) (es : List ℕ) (l : ℕ) (s : S)
    → ((k : ℕ) → k < n → f k ≡ g k)
    → l + length es ≤ n
    → execute exec f top size es l s ≡ execute exec g top size es l s
execute-agree exec f g top size n [] l s same room = refl
execute-agree exec f g top size n (e ∷ es) l s same room =
    ap (λ x. execute exec f top size es (l + 1) (exec (entry_addr top size e) x s))
      (same l (omega arith))
    ∙ execute-agree exec f g top size n es (l + 1) (exec (entry_addr top size e) (g l) s) same
        (omega arith)

-- The stamps below the count stay.
pub step-stamps :
    (unset : ℕ → ℕ) (tick : _) (r : RpcHandler) (k : ℕ)
    → k < r.i
    → stamps unset (step tick r) k ≡ stamps unset r k
unfolding stamps step
step-stamps unset tick r k h = rw ((step_at-keeps r.phase tick r k h).0) refl

module _ {W : Type 0} (t : TxnType W) where
  pub index_batch-counts :
      (x x' : Indexer) (w w' : W) (loads rest : List ℕ)
      → index_batch t x w loads ≡ some (x', w', rest)
      → (check_avail_cnts x.handled_req_cnt loads ≡ some (x'.batch, rest))
        × (x'.handled_req_cnt ≡ add64 x.handled_req_cnt x'.batch)
  unfolding index_batch index_rewind
  index_batch-counts x x' w w' loads rest h =
      let same : (index_rewind x).handled_req_cnt ≡ x.handled_req_cnt = ground arith in
      elim (Option-cases (check_avail_cnts (index_rewind x).handled_req_cnt loads)) [
        | inl e ↦ absurd (let h' = (rw (e, index_batch) at h) in cc)
        | inr ((k, loads'), e) ↦
            let h' = (rw (e, index_batch) at h) in
            let e' = (rw same at e) in (ground (arith, h', e'), ground (arith, h', same))
      ]

module _ {Q W : Type 0} (ring : SpscQueue Q) (t : TxnType W) where
  -- The Indexer has taken what it has indexed, and no more than its last load has shown.
  pub record Taken (p : Pipe Q W) (seen : ℕ) : Type 0 where
    pub counted : p.indexer.handled_req_cnt ≡ total p.indexed
    pub covered : total p.indexed ≤ seen

  pub Taken-Step :
      {stamp : ℕ → ℕ} (u v : Pipe Q W) (seen count : ℕ) (st : Step ring t stamp u v)
      → unmade_of ring t st ≡ []
      → Coherent seen (loads_of ring t st) count
      → count ≤ rpc_log_size
      → Taken u seen
      → Taken v (last_load seen (loads_of ring t st))
  Taken-Step u v seen count (Step.index loads rest x w ph run e) all h small k =
      let (found, handled) = index_batch-counts t u.indexer x u.world w loads rest run in
      let (above, below) = last_load-Coherent seen loads count h in
      let level = k.counted in
      let enough =
        check_avail_cnts-covered u.indexer.handled_req_cnt seen count loads
          (omega (arith, k.covered, level)) h (omega arith) (rw all at found) in
      let sum = total-snoc u.indexed x.batch in
      subst (λ p. Taken p (last_load seen loads)) (sym e)
        (record {
          counted = omega (arith, handled, level, sum, enough, below);
          covered = omega (arith, level, sum, enough);
        })
  Taken-Step u v seen count (Step.index_push q ph pushed e) all h small k =
      subst (λ p. Taken p seen) (sym e) (record { counted = k.counted; covered = k.covered })
  Taken-Step u v seen count (Step.fetch n ph got e) all h small k =
      subst (λ p. Taken p seen) (sym e) (record { counted = k.counted; covered = k.covered })
  Taken-Step u v seen count (Step.fetch_push q ph pushed e) all h small k =
      subst (λ p. Taken p seen) (sym e) (record { counted = k.counted; covered = k.covered })
  Taken-Step u v seen count (Step.fetch_pop ph e) all h small k =
      subst (λ p. Taken p seen) (sym e) (record { counted = k.counted; covered = k.covered })
  Taken-Step u v seen count (Step.spawn counters n ph go got e) all h small k =
      subst (λ p. Taken p seen) (sym e) (record { counted = k.counted; covered = k.covered })
  Taken-Step u v seen count (Step.spawn_pop counters ph e) all h small k =
      subst (λ p. Taken p seen) (sym e) (record { counted = k.counted; covered = k.covered })

  -- The two sections of the model differ in the stamps only.
  pub Flow-restamp : {f g : ℕ → ℕ} {p : Pipe Q W} → Flow ring t f p → Flow ring t g p
  Flow-restamp h = record {
    queued_idx = h.queued_idx;
    queued_pref = h.queued_pref;
    ring_idx = h.ring_idx;
    ring_pref = h.ring_pref;
    all_indexed = h.all_indexed;
    all_fetched = h.all_fetched;
    batches = h.batches;
  }
