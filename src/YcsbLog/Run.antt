-- ===== src/YcsbLog/Run.antt =====
-- The YCSB benchmark from the generated log to the rows: app/ycsb/gen-log/generate_ycsb_zipf.cc writes the
-- log, `main` of app/ycsb.cc makes the rows, FileDispatcher (without CORE_PIPE and INDEXER) reads the log,
-- and the runtime runs the behaviours.
use mathlib.Core.Option.{some-injective}
use doradd_storage.Base.{
  ℕ, ◌+◌, ◌-◌, ◌*◌, ◌≤◌, ◌<◌, ◌≡◌, refl, sym, ap, ap₂, subst, ◌∙◌, List, [], ◌∷◌, map, Bool, some,
  false, arith, length, range_from, All, read_le,
}
use doradd_storage.Txn.{entry_addr}
use doradd_storage.Dispatch.{new, run}
use doradd_storage.Dispatch.Schedule.{IsReady}
use doradd_storage.Runtime.{Schedule, run_all}
use doradd_storage.Ycsb.{
  World, Behaviour, Rows, rows_per_tx, db_size, cown_stride, marshalled_size, ycsb_transaction,
  body,
}
use doradd_storage.Ycsb.Table
use doradd_storage.Ycsb.Table.{Index, get_row}
use doradd_storage.Ycsb.Setup.{insert_rows, insert_rows-all}
use doradd_storage.Ycsb.Body.{Disjoint}
use doradd_storage.Ycsb.Determinism.{view, behaviour_at, behaviours, ycsb_deterministic}
use doradd_storage.YcsbLog.{tx_count, gen_write_set, gen_log}
use doradd_storage.YcsbLog.Keys.{AreKeys, Reaches}
use doradd_storage.YcsbLog.Layout.{txn_at}
use doradd_storage.YcsbLog.File.{IsGenerated, gen_log-returns}

-- The benchmark after `main` has made the rows and mapped the file at `mmap_ret`.
abbrev pub mapped : ℕ → List ℕ → Index → World
mapped mmap_ret file x = record { index = x; log = λ a. txn_at file (a - mmap_ret); spawned = [] }

-- A behaviour on ten different rows of the array at `base`.
pub record IsMeant (base write_set : ℕ) (b : Behaviour) : Type 0 where
  pub keys : List ℕ
  pub ten : length keys ≡ rows_per_tx
  pub good : AreKeys keys
  pub acquired : b.cowns ≡ map (λ key. base + cown_stride * key) keys
  pub same_write_set : b.ws_cap ≡ write_set

found_rows :
    (base : ℕ) (x : Index) (keys : List ℕ)
    → ((key : ℕ) → key < db_size → get_row x key ≡ base + cown_stride * key)
    → All (λ key. key < db_size) keys
    → map (get_row x) keys ≡ map (λ key. base + cown_stride * key) keys
found_rows base x [] placed h = refl
found_rows base x (key ∷ keys) placed (low, h) =
    ap₂ ◌∷◌ (placed key low) (found_rows base x keys placed h)

behaviour_at-IsMeant :
    (base mmap_ret m ws : ℕ) (file : List ℕ) (x : Index)
    → ((key : ℕ) → key < db_size → get_row x key ≡ base + cown_stride * key)
    → IsGenerated ws (txn_at file (4 + m * marshalled_size))
    → IsMeant base ws
        (behaviour_at (view (mapped mmap_ret file x)) (entry_addr (mmap_ret + 4) marshalled_size m))
behaviour_at-IsMeant base mmap_ret m ws file x placed g =
    let same : 4 + m * marshalled_size ≡ entry_addr (mmap_ret + 4) marshalled_size m - mmap_ret =
      omega arith in
    let g' = subst (λ a. IsGenerated ws (txn_at file a)) same g in
    record {
      keys = (txn_at file (entry_addr (mmap_ret + 4) marshalled_size m - mmap_ret)).indices;
      ten = g'.ten;
      good = g'.keys;
      acquired = found_rows base x _ placed g'.keys.rows;
      same_write_set = g'.same_write_set;
    }

new-IsReady :
    (mmap_ret workers garbage : ℕ) → IsReady marshalled_size (new mmap_ret workers tx_count garbage)
unfolding new
new-IsReady mmap_ret workers garbage = ground arith

-- What is known of the file that is written, and of the table that is filled.
gen_log-file :
    (fuel : ℕ) (contention : Bool) (draw : ℕ → ℕ) (shuffled : ℕ → List ℕ) (file : List ℕ)
    → Reaches fuel draw
    → gen_log fuel contention draw shuffled ≡ some file
    → (read_le file 0 4 ≡ tx_count)
      × ((m : ℕ)
          → m < tx_count
          → IsGenerated
              (gen_write_set contention (shuffled m))
              (txn_at file (4 + m * marshalled_size)))
gen_log-file fuel contention draw shuffled file reaches written =
    let (file', written', size, count, generated) =
      gen_log-returns fuel contention draw shuffled reaches in
    let same : file' ≡ file = some-injective file' file (sym written' ∙ written) in
    subst
      (λ l.
        (read_le l 0 4 ≡ tx_count)
        × ((m : ℕ)
            → m < tx_count
            → IsGenerated (gen_write_set contention (shuffled m))
                (txn_at l (4 + m * marshalled_size))))
      same (count, generated)

insert_rows-placed :
    (base : ℕ) (x : Index)
    → insert_rows db_size base db_size 0 (Table.new db_size) ≡ some x
    → (key : ℕ) → key < db_size
    → get_row x key ≡ base + cown_stride * key
insert_rows-placed base x made key h =
    let (x', made', placed, full) = insert_rows-all db_size base in
    let same : x' ≡ x = some-injective x' x (sym made' ∙ made) in
    ap (λ y. get_row y key) (sym same) ∙ placed key h

-- The log is one that the generator has written, from draws that give each of some ten rows in any `fuel`
-- draws (ten rows in ten different blocks of 2^17, none at the beginning of its block), and the rows of the
-- table are those that `main` makes. Then, whatever the arrivals, the batches and the runtime's choices, a
-- run of the dispatcher that dispatches n transactions, with n + 3 at most TX_COUNT, leaves the rows that
-- the first n transactions of the log leave, run one after the other; and each of these is a behaviour on
-- ten different slots of the array of rows, with the write set that was generated for it.
pub generated_run :
    (fuel : ℕ) (contention : Bool) (draw : ℕ → ℕ) (shuffled : ℕ → List ℕ) (file : List ℕ)
    (base mmap_ret : ℕ) (x : Index) (stamp : ℕ → ℕ) (rounds : List (List ℕ)) (loads : List ℕ)
    (workers garbage n : ℕ) (order : List Behaviour) (rows : Rows)
    → let w = mapped mmap_ret file x in
      let d = new mmap_ret workers (read_le file 0 4) garbage in
      Reaches fuel draw
      → gen_log fuel contention draw shuffled ≡ some file
      → insert_rows db_size base db_size 0 (Table.new db_size) ≡ some x
      → (run (ycsb_transaction false) stamp rounds d w loads).0.txn_log_id ≡ n
      → n + 3 ≤ tx_count
      → Schedule Disjoint body (run (ycsb_transaction false) stamp rounds d w loads).1.spawned order
      → (run_all Disjoint body order rows
          ≡ run_all Disjoint body (behaviours (view w) (mmap_ret + 4) (range_from 0 n)) rows)
        × ((m : ℕ)
            → m < n
            → IsMeant base
                (gen_write_set contention (shuffled m))
                (behaviour_at (view w) (entry_addr (mmap_ret + 4) marshalled_size m)))
unfolding new
generated_run fuel contention draw shuffled file base mmap_ret x stamp rounds loads workers garbage
      n order rows reaches written made done room schedule =
    let (count, generated) = gen_log-file fuel contention draw shuffled file reaches written in
    let ready : IsReady marshalled_size (new mmap_ret workers (read_le file 0 4) garbage) =
      subst (λ c. IsReady marshalled_size (new mmap_ret workers c garbage)) (sym count)
        (new-IsReady mmap_ret workers garbage) in
    (
      ycsb_deterministic stamp rounds (new mmap_ret workers (read_le file 0 4) garbage)
          (mapped mmap_ret file x) loads n order rows ready refl (done ∙ omega arith)
          (omega (arith, count)) schedule,
      (λ m h.
          behaviour_at-IsMeant base mmap_ret m (gen_write_set contention (shuffled m)) file x
            (insert_rows-placed base x made) (generated m (omega arith))),
    )
