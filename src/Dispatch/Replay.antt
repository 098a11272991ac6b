-- ===== src/Dispatch/Replay.antt =====
-- What a run of `FileDispatcher` does to the part of the world that processing changes.
use doradd_storage.Base.{
  ℕ, zero, suc, ◌+◌, ◌≤◌, ◌≡◌, refl, ap, sym, ◌∙◌, List, [], ◌∷◌, ◌++◌, arith, range_from, length,
}
use doradd_storage.Txn.{TxnType, Sized, visit, entries, entry_addr}
use doradd_storage.Dispatch.{FileDispatcher, run}
use doradd_storage.Dispatch.Batch.{replay}
use doradd_storage.Dispatch.Schedule.{next, schedule, total, follow, IsReady, run-Follows}
use doradd_storage.Dispatch.Order.{schedule_in_order}

-- A view of the world that preparing and prefetching leave alone, and that processing changes by
-- itself.
pub record Projects {W S : Type 0} (t : TxnType W) (state : W → S) (exec : ℕ → ℕ → S → S)
    : Type 0 where
  pub prepare_quiet : (a : ℕ) (w : W) → state (t.prepare_cowns a w).0 ≡ state w
  pub prefetch_quiet : (a : ℕ) (w : W) → state (t.prefetch_cowns a w).0 ≡ state w
  pub process_exec : (a s : ℕ) (w : W) → state (t.parse_and_process a s w).0 ≡ exec a s (state w)

-- The reference: entries of the log executed one after the other.
module _ {S : Type 0} (exec : ℕ → ℕ → S → S) (stamp : ℕ → ℕ) (top size : ℕ) where
  abbrev pub execute : List ℕ → ℕ → S → S
  execute [] l s = s
  execute (e ∷ es) l s = execute es (l + 1) (exec (entry_addr top size e) (stamp l) s)

  pub execute-append :
      (es fs : List ℕ) (l : ℕ) (s : S)
      → execute (es ++ fs) l s ≡ execute fs (l + length es) (execute es l s)
  execute-append [] fs l s = ap (λ k. execute fs k s) (let e : l ≡ l + 0 = omega arith in e)
  execute-append (e ∷ es) fs l s =
      let shifted : l + 1 + length es ≡ l + suc (length es) = omega arith in
      execute-append es fs (l + 1) (exec (entry_addr top size e) (stamp l) s)
      ∙ ap (λ k. execute fs k (execute es (l + 1) (exec (entry_addr top size e) (stamp l) s)))
          shifted

pub length-range_from : (n i : ℕ) → length (range_from i n) ≡ n
length-range_from zero i = refl
length-range_from (suc n) i = ap suc (length-range_from n (i + 1))

pub state-visit :
    {W S : Type 0} (state : W → S) (op : ℕ → W → W × ℕ)
    → ((a : ℕ) (w : W) → state (op a w).0 ≡ state w)
    → (l : List ℕ) (w : W) → state (visit op l w) ≡ state w
unfolding visit
state-visit state op quiet [] w = refl
state-visit state op quiet (a ∷ l) w = state-visit state op quiet l (op a w).0 ∙ quiet a w

module _ {W S : Type 0} (t : TxnType W) (state : W → S) (exec : ℕ → ℕ → S → S)
    (p : Projects t state exec) (stamp : ℕ → ℕ) (size : ℕ) where
  pub state-replay :
      (top n i l : ℕ) (w : W)
      → state (replay t stamp top size n i l w)
        ≡ execute exec stamp top size (range_from i n) l (state w)
  state-replay top zero i l w = refl
  state-replay top (suc n) i l w =
      state-replay top n (i + 1) (l + 1) (t.parse_and_process (entry_addr top size i) (stamp l) w).0
      ∙ ap (execute exec stamp top size (range_from (i + 1) n) (l + 1))
          (p.process_exec (entry_addr top size i) (stamp l) w)

  state-follow :
      (top c idx l : ℕ) (ks : List ℕ) (w : W)
      → state (follow t stamp top size c idx l ks w)
        ≡ execute exec stamp top size (schedule c idx ks) l (state w)
  state-follow top c idx l [] w = refl
  state-follow top c idx l (k ∷ ks) w =
      let i = next c idx in
      let prepared = visit t.prepare_cowns (entries top size i k) w in
      let fetched = visit t.prefetch_cowns (entries top size i k) prepared in
      let here =
        state-replay top k i l fetched
        ∙ ap (execute exec stamp top size (range_from i k) l) (
            state-visit state t.prefetch_cowns p.prefetch_quiet (entries top size i k) prepared
            ∙ state-visit state t.prepare_cowns p.prepare_quiet (entries top size i k) w) in
      state-follow top c (i + k) (l + k) ks (replay t stamp top size k i l fetched)
      ∙ ap (execute exec stamp top size (schedule c (i + k) ks) (l + k)) here
      ∙ sym (
          execute-append exec stamp top size (range_from i k) (schedule c (i + k) ks) l (state w)
          ∙ ap
              (λ m.
                execute exec stamp top size (schedule c (i + k) ks) (l + m)
                  (execute exec stamp top size (range_from i k) l (state w)))
              (length-range_from k i))

  -- Whatever the arrivals and the batches, a run that dispatches `n` entries has executed the next `n`
  -- entries of the log one after the other, in order, provided that the log holds three more.
  pub run_in_order :
      (sized : Sized t size) (rounds : List (List ℕ)) (d : FileDispatcher) (w : W) (loads : List ℕ)
      (n : ℕ)
      → IsReady size d
      → (run t stamp rounds d w loads).0.txn_log_id ≡ d.txn_log_id + n
      → d.idx + n + 3 ≤ d.count
      → state (run t stamp rounds d w loads).1
        ≡ execute exec stamp d.read_top size (range_from d.idx n) d.txn_log_id (state w)
  run_in_order sized rounds d w loads n r done room =
      let (ks, (batches, world, log)) = run-Follows t stamp size sized rounds d w loads r in
      let count_eq : total ks ≡ n = omega arith in
      rw world (
        state-follow d.read_top d.count d.idx d.txn_log_id ks w
        ∙ ap (λ es. execute exec stamp d.read_top size es d.txn_log_id (state w))
            (schedule_in_order d.count d.idx ks r.valid.fits batches (omega arith)
              ∙ ap (range_from d.idx) count_eq))
