-- ===== src/Stages/Cursor.antt =====
-- Where the Prefetcher and the Spawner stand in the log after a sequence of batches.
use doradd_storage.Base.{
  ℕ, zero, suc, ◌+◌, ◌<◌, ◌≡◌, refl, ap, sym, ◌∙◌, List, [], ◌∷◌, ◌++◌, arith, u32_mod, u64_mod,
  add32, add64, range_from,
}
use mathlib.Core.List.{append_assoc, append-nil}
use doradd_storage.Txn.{TxnType, Sized, visit, entries, entry_addr, walk-entries}
use doradd_storage.Dispatch.{wraps}
use doradd_storage.Dispatch.Batch.{replay}
use doradd_storage.Dispatch.Schedule.{next, schedule}
use doradd_storage.Stages.{
  Prefetcher, Spawner, prefetch_rewind, spawn_rewind, bump, prefetch_batch, spawn_loop, spawn_batch,
}

-- The index behind a sequence of batches.
abbrev pub cursor : ℕ → ℕ → List ℕ → ℕ
cursor c idx [] = idx
cursor c idx (k ∷ ks) = cursor c (next c idx + k) ks

pub cursor-snoc :
    (c idx : ℕ) (ks : List ℕ) (k : ℕ) → cursor c idx (ks ++ (k ∷ [])) ≡ next c (cursor c idx ks) + k
cursor-snoc c idx [] k = refl
cursor-snoc c idx (j ∷ ks) k = cursor-snoc c (next c idx + j) ks k

pub schedule-snoc :
    (c idx : ℕ) (ks : List ℕ) (k : ℕ)
    → schedule c idx (ks ++ (k ∷ [])) ≡ schedule c idx ks ++ range_from (next c (cursor c idx ks)) k
schedule-snoc c idx [] k = append-nil (range_from (next c idx) k)
schedule-snoc c idx (j ∷ ks) k =
    ap (λ l. range_from (next c idx) j ++ l) (schedule-snoc c (next c idx + j) ks k)
    ∙ sym (append_assoc (range_from (next c idx) j) (schedule c (next c idx + j) ks) _)

pub bump_lem : (n i : ℕ) → i + n < u32_mod → bump n i ≡ i + n
unfolding bump
bump_lem zero i h = omega arith
bump_lem (suc n) i h =
    let one : add32 i 1 ≡ i + 1 = omega arith in
    rw one (bump_lem n (i + 1) (omega arith) ∙ (let e : i + 1 + n ≡ i + suc n = omega arith in e))

-- The stage stands at entry `i` of a log of `c` entries that begins at `top`.
pub record FetchesAt (top size c i : ℕ) (x : Prefetcher) : Type 0 where
  pub same_top : x.read_top ≡ top
  pub same_count : x.read_count ≡ c
  pub at_idx : x.idx ≡ i
  pub at_head : x.read_head ≡ entry_addr top size i

pub record SpawnsAt (top size c i log_id : ℕ) (x : Spawner) : Type 0 where
  pub same_top : x.read_top ≡ top
  pub same_count : x.read_count ≡ c
  pub at_idx : x.idx ≡ i
  pub at_head : x.read_head ≡ entry_addr top size i
  pub at_prepare_head : x.prepare_read_head ≡ entry_addr top size i
  pub at_log : x.txn_log_id ≡ log_id

prefetch_rewind_lem :
    (top size c i : ℕ) (x : Prefetcher)
    → FetchesAt top size c i x
    → FetchesAt top size c (next c i) (prefetch_rewind x)
unfolding prefetch_rewind wraps
prefetch_rewind_lem top size c i x p = ground arith

spawn_rewind_lem :
    (top size c i l : ℕ) (x : Spawner)
    → SpawnsAt top size c i l x
    → SpawnsAt top size c (next c i) l (spawn_rewind x)
unfolding spawn_rewind wraps
spawn_rewind_lem top size c i l x p = ground arith

-- One round of the dispatch loop.
abbrev spawned_one : {W : Type 0} → TxnType W → (ℕ → ℕ) → Spawner → W → Spawner
spawned_one t stamp x w = record x {
  txn_log_id = add64 x.txn_log_id 1;
  read_head = x.read_head + (t.parse_and_process x.read_head (stamp x.txn_log_id) w).1;
  idx = add32 x.idx 1;
  tx_count = add64 x.tx_count 1;
  tx_spawn_sum = add64 x.tx_spawn_sum 1;
}

module _ {W : Type 0} (t : TxnType W) (top size c : ℕ) (sized : Sized t size) where
  -- A batch is prefetched from the entry where the stage stands, after the rewind.
  pub prefetch_batch_lem :
      (k i : ℕ) (x : Prefetcher) (w : W)
      → FetchesAt top size c i x
      → next c i + k < u32_mod
      → FetchesAt top size c (next c i + k) (prefetch_batch t k x w).0
        × ((prefetch_batch t k x w).1 ≡ visit t.prefetch_cowns (entries top size (next c i) k) w)
  unfolding prefetch_batch
  prefetch_batch_lem k i x w p small =
      let q = prefetch_rewind_lem top size c i x p in
      let walked =
        walk-entries t.prefetch_cowns size sized.prefetch_size top k (next c i)
          (prefetch_rewind x).read_head w q.at_head in
      let bumped = bump_lem k (prefetch_rewind x).idx (omega (arith, q.at_idx)) in
      (ground (arith, q, walked, bumped), ground (arith, walked))

  module _ (stamp : ℕ → ℕ) where
    spawn_loop_lem :
        (n i l : ℕ) (x : Spawner) (w : W)
        → SpawnsAt top size c i l (record x { prepare_read_head = entry_addr top size i })
        → i + n < u32_mod
        → l + n < u64_mod
        → SpawnsAt top size c (i + n) (l + n) (record (spawn_loop t stamp n x w).0 {
          prepare_read_head = entry_addr top size (i + n);
        })
          × ((spawn_loop t stamp n x w).0.prepare_read_head ≡ x.prepare_read_head)
          × ((spawn_loop t stamp n x w).1 ≡ replay t stamp top size n i l w)
    unfolding spawn_loop
    spawn_loop_lem zero i l x w p si sl = (ground arith, refl, refl)
    spawn_loop_lem (suc n) i l x w p si sl =
        let size_eq = sized.process_size x.read_head (stamp x.txn_log_id) w in
        let one : add32 i 1 ≡ i + 1 = omega arith in
        let one' : add64 l 1 ≡ l + 1 = omega arith in
        let ih =
          spawn_loop_lem n (i + 1) (l + 1) (spawned_one t stamp x w)
            (t.parse_and_process x.read_head (stamp x.txn_log_id) w).0 (ground (arith, size_eq, p))
            (omega arith) (omega arith) in
        ground (arith, p, ih)

    -- A batch is prefetched and then processed from the entry where the stage stands, after the rewind.
    pub spawn_batch_lem :
        (k i l : ℕ) (x : Spawner) (w : W)
        → SpawnsAt top size c i l x
        → next c i + k < u32_mod
        → l + k < u64_mod
        → SpawnsAt top size c (next c i + k) (l + k) (spawn_batch t stamp k x w).0
          × ((spawn_batch t stamp k x w).1
              ≡ replay t stamp top size k
                  (next c i)
                  l
                  (visit t.prefetch_cowns (entries top size (next c i) k) w))
    unfolding spawn_batch
    spawn_batch_lem k i l x w p si sl =
        let q = spawn_rewind_lem top size c i l x p in
        let fetched = visit t.prefetch_cowns (entries top size (next c i) k) w in
        let x1 = record (spawn_rewind x) {
          prepare_read_head = entry_addr top size (next c i + k);
        } in
        let spawned = spawn_loop_lem k (next c i) l x1 fetched (ground (arith, q)) si sl in
        rw
          (walk-entries t.prefetch_cowns size sized.prefetch_size top k (next c i)
            (spawn_rewind x).prepare_read_head w q.at_prepare_head)
          (ground (arith, spawned), spawned.2)
