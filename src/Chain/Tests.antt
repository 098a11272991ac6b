-- ===== src/Chain/Tests.antt =====
-- The theorems on app/chain.cc at concrete inputs.
use doradd_storage.Base.{
  ℕ, zero, suc, ◌+◌, ◌*◌, ◌≤◌, ◌<◌, ◌≡◌, refl, [], ◌∷◌, map, some, arith, get_or,
}
use doradd_storage.Chain.{nft, p2p}
use doradd_storage.Chain.Switch.{switch_mixed}
use doradd_storage.Chain.Cases.{switch_mixed-first}
use doradd_storage.Chain.Spin.{body, body-serves}
use doradd_storage.Chain.Txn.{Database, Marshalled, Behaviour, found_ptrs, behaviours}
use doradd_storage.Chain.Load.{load_chain}
use doradd_storage.Chain.Acquire.{IsInTables, rows_meant}
use doradd_storage.Chain.Loaded.{load_chain-behaviours}

switch_mixed-first_example : switch_mixed 3 (λ i. 100 + i) ≡ some (100 ∷ 101 ∷ 102 ∷ [])
switch_mixed-first_example = switch_mixed-first 3 (λ i. 100 + i)

-- Two users at the ends of the table.
abbrev a_transfer : Marshalled
a_transfer = record { num_writes = 1; gas = 0; params = 1 ∷ 289_023 ∷ []; cown_ptrs = 0 ∷ 0 ∷ [] }

user_ids_lem :
    (i : ℕ)
    → 0 ≤ i
    → i < 2
    → (1 ≤ get_or a_transfer.params i 0) × (get_or a_transfer.params i 0 ≤ 289_023)
user_ids_lem zero l h = (omega arith, omega arith)
user_ids_lem (suc zero) l h = (omega arith, omega arith)
user_ids_lem (suc (suc i)) l h = absurd (omega arith)

a_transfer-IsInTables : IsInTables p2p a_transfer
a_transfer-IsInTables = record {
  size = refl;
  some_write = omega arith;
  few_writes = omega arith;
  resource_ids = λ i h. absurd (omega arith);
  user_ids = user_ids_lem;
}

load_chain-behaviours_example :
    (db : Database) × (load_chain p2p 4096 ≡ some db)
    × ((txm : Marshalled)
        → IsInTables p2p txm
        → map
            (λ (b : Behaviour). b.cowns)
            (behaviours p2p (record txm { cown_ptrs = found_ptrs p2p db txm }))
          ≡ rows_meant p2p 4096 txm ∷ [])
load_chain-behaviours_example = load_chain-behaviours p2p 4096

-- What the transaction acquires: the first and the last user.
a_transfer-rows :
    map
      (λ (b : Behaviour). b.cowns)
      (behaviours p2p (record a_transfer {
        cown_ptrs = found_ptrs p2p (load_chain-behaviours p2p 4096).0 a_transfer;
      }))
    ≡ (4096 ∷ (4096 + 1024 * 289_022) ∷ []) ∷ []
a_transfer-rows = (load_chain-behaviours p2p 4096).2 a_transfer a_transfer-IsInTables

-- A clock that is read every microsecond.
body-serves_example :
    (j : ℕ) × (body nft 0 300 (λ k. 1000 * k) 5 ≡ some j)
    × (5000 + 240_000 ≤ 1000 * j)
    × ((i : ℕ) → 5 < i → i < j → 1000 * i < 5000 + 240_000)
body-serves_example =
    body-serves nft 0 300 (λ k. 1000 * k) 5 245 (omega arith) (omega arith) (omega arith)
      (omega arith)
