-- ===== src/Ycsb/Determinism.antt =====
-- A run of the YCSB benchmark from the log to the rows: FileDispatcher, in the build without CORE_PIPE
-- and INDEXER, and whatever order the runtime runs the behaviours in.
use mathlib.Core.Path.{fun_ext}
use mathlib.Core.List.{append_assoc, append-nil}
use doradd_storage.Base.{
  ℕ, ◌+◌, ◌≤◌, ◌≡◌, refl, sym, ap, ◌∙◌, List, [], ◌∷◌, ◌++◌, map, false, arith, range_from,
}
use doradd_storage.Txn.{Sized, entry_addr}
use doradd_storage.Dispatch.{FileDispatcher, run}
use doradd_storage.Dispatch.Schedule.{IsReady}
use doradd_storage.Dispatch.Replay.{Projects, execute, run_in_order}
use doradd_storage.Runtime.{Schedule, run_all, run_all-Schedule}
use doradd_storage.Ycsb.{
  World, Behaviour, Rows, marshalled_size, prepare_cowns, ycsb_transaction, body,
}
use doradd_storage.Ycsb.Table.{Index, get_row}
use doradd_storage.Ycsb.Body.{Disjoint, body-commute}

-- What dispatching a transaction depends on, and the behaviours that are spawned.
pub record View : Type 0 where
  pub index : Index
  pub indices : ℕ → List ℕ
  pub write_set : ℕ → ℕ
  pub spawned : List Behaviour

abbrev pub view : World → View
view w = record {
  index = w.index;
  indices = λ a. (w.log a).indices;
  write_set = λ a. (w.log a).write_set;
  spawned = w.spawned;
}

-- The behaviour of the transaction at an address: its rows by their keys, and its write set.
abbrev pub behaviour_at : View → ℕ → Behaviour
behaviour_at v a = record { cowns = map (get_row v.index) (v.indices a); ws_cap = v.write_set a }

abbrev pub spawn : ℕ → ℕ → View → View
spawn a init_time v = record v { spawned = v.spawned ++ (behaviour_at v a ∷ []) }

prepare_quiet : (a : ℕ) (w : World) → view (prepare_cowns a w).0 ≡ view w
unfolding prepare_cowns
prepare_quiet a w = λ i. record {
  index = w.index;
  indices = fun_ext (λ b. same_indices b) i;
  write_set = fun_ext (λ b. same_write_set b) i;
  spawned = w.spawned;
}
  where
    same_indices : (b : ℕ) → ((prepare_cowns a w).0.log b).indices ≡ (w.log b).indices
    same_indices b = ground arith

    same_write_set : (b : ℕ) → ((prepare_cowns a w).0.log b).write_set ≡ (w.log b).write_set
    same_write_set b = ground arith

pub ycsb-Projects : Projects (ycsb_transaction false) view spawn
unfolding ycsb_transaction
ycsb-Projects = record {
  prepare_quiet = prepare_quiet;
  prefetch_quiet = λ a w. refl;
  process_exec = λ a s w. refl;
}

pub ycsb-Sized : Sized (ycsb_transaction false) marshalled_size
unfolding ycsb_transaction
ycsb-Sized = record {
  prepare_size = λ a w. refl;
  prefetch_size = λ a w. refl;
  process_size = λ a s w. refl;
}

-- The behaviours of entries of a log at `top`, in their order.
abbrev pub behaviours : View → ℕ → List ℕ → List Behaviour
behaviours v top = map (λ e. behaviour_at v (entry_addr top marshalled_size e))

execute-spawned :
    (stamp : ℕ → ℕ) (top : ℕ) (es : List ℕ) (l : ℕ) (v : View)
    → (execute spawn stamp top marshalled_size es l v).spawned ≡ v.spawned ++ behaviours v top es
execute-spawned stamp top [] l v = sym (append-nil v.spawned)
execute-spawned stamp top (e ∷ es) l v =
    execute-spawned stamp top es (l + 1) (spawn (entry_addr top marshalled_size e) (stamp l) v)
    ∙ append_assoc v.spawned (behaviour_at v (entry_addr top marshalled_size e) ∷ [])
        (behaviours v top es)

-- Whatever the arrivals, the batches and the runtime's choices, a run of the benchmark that dispatches
-- `n` transactions leaves the rows that executing those `n` transactions one after the other in the
-- order of the log leaves, provided that the log holds three more.
pub ycsb_deterministic :
    (stamp : ℕ → ℕ) (rounds : List (List ℕ)) (d : FileDispatcher) (w : World) (loads : List ℕ)
    (n : ℕ) (order : List Behaviour) (rows : Rows)
    → IsReady marshalled_size d
    → w.spawned ≡ []
    → (run (ycsb_transaction false) stamp rounds d w loads).0.txn_log_id ≡ d.txn_log_id + n
    → d.idx + n + 3 ≤ d.count
    → Schedule Disjoint body (run (ycsb_transaction false) stamp rounds d w loads).1.spawned order
    → run_all Disjoint body order rows
      ≡ run_all Disjoint body (behaviours (view w) d.read_top (range_from d.idx n)) rows
ycsb_deterministic stamp rounds d w loads n order rows ready fresh done room schedule =
    let ran =
      run_in_order (ycsb_transaction false) view spawn ycsb-Projects stamp marshalled_size
        ycsb-Sized rounds d w loads n ready done room in
    let spawned =
      ap (λ (v : View). v.spawned) ran
      ∙ execute-spawned stamp d.read_top (range_from d.idx n) d.txn_log_id (view w)
      ∙ ap (λ l. l ++ behaviours (view w) d.read_top (range_from d.idx n)) fresh in
    run_all-Schedule Disjoint body body-commute _ order rows schedule
    ∙ ap (λ l. run_all Disjoint body l rows) spawned
