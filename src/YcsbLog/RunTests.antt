-- ===== src/YcsbLog/RunTests.antt =====
-- The theorem on a run over a generated log, for a run that dispatches two transactions.
use doradd_storage.Base.{
  ℕ, ◌<◌, ◌≡◌, refl, sym, ap, subst, ◌∙◌, List, [], ◌∷◌, false, arith, range_from, read_le,
}
use doradd_storage.Txn.{entry_addr}
use doradd_storage.Dispatch.{
  FileDispatcher, new, check_avail_cnts, rewind, run_batch, dispatch_batch, run,
}
use doradd_storage.Runtime.{Schedule, run_all}
use doradd_storage.Ycsb.{Behaviour, Rows, World, marshalled_size, ycsb_transaction, body}
use doradd_storage.Ycsb.Table.{Index}
use doradd_storage.Ycsb.Setup.{insert_rows-all}
use doradd_storage.Ycsb.Body.{Disjoint}
use doradd_storage.Ycsb.Determinism.{view, behaviour_at, behaviours}
use doradd_storage.YcsbLog.{tx_count, gen_write_set}
use doradd_storage.YcsbLog.File.{gen_log-returns}
use doradd_storage.YcsbLog.Run.{mapped, IsMeant, generated_run}
use doradd_storage.YcsbLog.Tests.{digits, ten_rows, ten_rows-Reaches}

abbrev file : List ℕ
file = (gen_log-returns 10 false ten_rows (λ i. digits) ten_rows-Reaches).0

abbrev table : Index
table = (insert_rows-all 10_000_000 4096).0

abbrev world : World
world = mapped 0 file table

abbrev dispatcher : FileDispatcher
dispatcher = new 0 2 (read_le file 0 4) 0

abbrev after : FileDispatcher × World
after = run (ycsb_transaction false) (λ l. l) ([] ∷ []) dispatcher world (0 ∷ 2 ∷ [])

abbrev blank : Rows
blank a = []

-- The run, on a log of `count` entries.
abbrev after_of : ℕ → FileDispatcher × World
after_of count =
    run (ycsb_transaction false) (λ l. l) ([] ∷ []) (new 0 2 count 0) world (0 ∷ 2 ∷ [])

count_lem : read_le file 0 4 ≡ tx_count
count_lem = (gen_log-returns 10 false ten_rows (λ i. digits) ten_rows-Reaches).3

two_dispatched : after.0.txn_log_id ≡ 2
unfolding new run dispatch_batch check_avail_cnts rewind run_batch ycsb_transaction
two_dispatched = ap (λ c. (after_of c).0.txn_log_id) count_lem ∙ last
  where
    last : (after_of tx_count).0.txn_log_id ≡ 2
    last = refl

two_spawned : after.1.spawned ≡ behaviours (view world) 4 (range_from 0 2)
unfolding new run dispatch_batch check_avail_cnts rewind run_batch ycsb_transaction
two_spawned = ap (λ c. (after_of c).1.spawned) count_lem ∙ last
  where
    last : (after_of tx_count).1.spawned ≡ behaviours (view world) 4 (range_from 0 2)
    last = refl

two_in_order : (b c : Behaviour) → Schedule Disjoint body (b ∷ c ∷ []) (b ∷ c ∷ [])
two_in_order b c =
    Schedule.run [] b (c ∷ []) (c ∷ []) (b ∷ c ∷ []) tt refl
      (Schedule.run [] c [] [] (c ∷ []) tt refl Schedule.done)

in_order : Schedule Disjoint body after.1.spawned (behaviours (view world) 4 (range_from 0 2))
in_order =
    subst (λ l. Schedule Disjoint body l (behaviours (view world) 4 (range_from 0 2)))
      (sym two_spawned) (two_in_order (behaviour_at (view world) 4) (behaviour_at (view world) 132))

generated_run_example :
    (run_all Disjoint body (behaviours (view world) 4 (range_from 0 2)) blank
      ≡ run_all Disjoint body (behaviours (view world) 4 (range_from 0 2)) blank)
    × ((m : ℕ)
        → m < 2
        → IsMeant 4096
            (gen_write_set false digits)
            (behaviour_at (view world) (entry_addr 4 marshalled_size m)))
generated_run_example =
    generated_run 10 false ten_rows (λ i. digits) file 4096 0 table (λ l. l) ([] ∷ []) (0 ∷ 2 ∷ [])
      2 0 2 (behaviours (view world) 4 (range_from 0 2)) blank ten_rows-Reaches
      (gen_log-returns 10 false ten_rows (λ i. digits) ten_rows-Reaches).1
      (insert_rows-all 10_000_000 4096).1 two_dispatched (omega arith) in_order
