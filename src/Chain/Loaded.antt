-- ===== src/Chain/Loaded.antt =====
-- The loader and the transactions of app/chain.cc together.
use doradd_storage.Base.{ℕ, ◌≡◌, [], ◌∷◌, map, some}
use doradd_storage.Chain.{Workload}
use doradd_storage.Chain.Txn.{Database, Marshalled, Behaviour, found_ptrs, behaviours}
use doradd_storage.Chain.Load.{load_chain}
use doradd_storage.Chain.Placed.{load_chain-Placed}
use doradd_storage.Chain.Acquire.{IsInTables, rows_meant, behaviours-rows}

-- The loader throws nothing, and in the database that it makes, a transaction whose ids lie in the tables
-- acquires, once its cowns are prepared, exactly the rows that its parameters name, in their order, each at
-- its own place in the allocation: in Mixed one resource for each write, in Nft a resource and a user, in
-- P2p two users, in Dex a resource.
pub load_chain-behaviours :
    (t : Workload) (base : ℕ)
    → (db : Database) × (load_chain t base ≡ some db)
      × ((txm : Marshalled)
          → IsInTables t txm
          → map
              (λ (b : Behaviour). b.cowns)
              (behaviours t (record txm { cown_ptrs = found_ptrs t db txm }))
            ≡ rows_meant t base txm ∷ [])
load_chain-behaviours t base =
    let (db, done, placed) = load_chain-Placed t base in
    (db, done, behaviours-rows t base db placed)
