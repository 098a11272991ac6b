-- ===== src/Chain/Acquire.antt =====
-- The loader, `prepare_cowns` and `parse_and_process` of app/chain.cc together: which rows a
-- transaction acquires in the builds with INDEXER.
use doradd_storage.Base.{
  ℕ, ◌+◌, ◌-◌, ◌*◌, ◌≤◌, ◌<◌, ◌≡◌, refl, sym, ap, ap₂, ◌∙◌, List, [], ◌∷◌, map, map-agree, some,
  arith, length, get_or, set, get_or-set_self, range_from, leb, true,
}
use doradd_storage.Txn.Pointers.{fill_ptrs, fill_ptrs-inside}
use doradd_storage.Chain.{
  Workload, mixed, nft, p2p, dex, num_accounts, num_resrc, num_cown, num_resrc_cown, max_length,
}
use doradd_storage.Chain.Cases.{switch_mixed-first}
use doradd_storage.Chain.Switch.{switch_mixed}
use doradd_storage.Chain.Txn.{
  Database, Marshalled, Behaviour, row_of, found_ptrs, get_cown, behaviours,
}
use doradd_storage.Chain.Placed.{Placed}

-- The row of parameter `i` among the resources, and among the users.
abbrev pub resource_at : ℕ → Marshalled → ℕ → ℕ
resource_at base txm i = base + 1024 * (get_or txm.params i 0 - 1)

abbrev pub user_at : Workload → ℕ → Marshalled → ℕ → ℕ
user_at t base txm i = base + 1024 * (num_resrc t + (get_or txm.params i 0 - 1))

-- The number of resources that a transaction names.
abbrev pub resources : Workload → Marshalled → ℕ
resources mixed txm = txm.num_writes
resources t txm = num_resrc_cown t

-- The ids of a transaction lie in the tables, and Mixed has 1 to 38 writes.
pub record IsInTables (t : Workload) (txm : Marshalled) : Type 0 where
  pub size : length txm.cown_ptrs ≡ num_cown t
  pub some_write : 1 ≤ txm.num_writes
  pub few_writes : txm.num_writes ≤ max_length
  pub resource_ids :
      (i : ℕ)
      → i < resources t txm
      → (1 ≤ get_or txm.params i 0) × (get_or txm.params i 0 ≤ num_resrc t)
  pub user_ids :
      (i : ℕ)
      → resources t txm ≤ i
      → i < num_cown t
      → (1 ≤ get_or txm.params i 0) × (get_or txm.params i 0 ≤ num_accounts)

-- The cowns that the transaction is meant for: the rows of its resources, then those of its users.
abbrev pub rows_meant : Workload → ℕ → Marshalled → List ℕ
rows_meant mixed base txm = map (resource_at base txm) (range_from 0 txm.num_writes)
rows_meant nft base txm = resource_at base txm 0 ∷ user_at nft base txm 1 ∷ []
rows_meant p2p base txm = user_at p2p base txm 0 ∷ user_at p2p base txm 1 ∷ []
rows_meant dex base txm = resource_at base txm 0 ∷ []

module _ (t : Workload) (base : ℕ) (db : Database) (placed : Placed t base db) (txm : Marshalled)
    (ok : IsInTables t txm) where
  resource-found :
      (i : ℕ) → i < resources t txm → row_of db.resource_table txm.params i ≡ resource_at base txm i
  unfolding row_of
  resource-found i h =
      let (low, high) = ok.resource_ids i h in placed.resource_addr (get_or txm.params i 0) low high

  user-found :
      (i : ℕ)
      → resources t txm ≤ i
      → i < num_cown t
      → row_of db.user_table txm.params i ≡ user_at t base txm i
  unfolding row_of
  user-found i h h' =
      let (low, high) = ok.user_ids i h h' in placed.user_addr (get_or txm.params i 0) low high

found-mixed :
    (base : ℕ) (db : Database)
    → Placed mixed base db
    → (txm : Marshalled) → IsInTables mixed txm
    → (i : ℕ) → 0 ≤ i
    → i < 0 + txm.num_writes
    → get_cown (record txm { cown_ptrs = found_ptrs mixed db txm }) i ≡ resource_at base txm i
unfolding found_ptrs get_cown
found-mixed base db placed txm ok i low high =
    let addr = row_of db.resource_table txm.params in
    let e : 0 + i ≡ i = omega arith in
    ap (λ k. get_or (fill_ptrs addr 0 0 txm.num_writes txm.cown_ptrs) k 0) (sym e)
    ∙ fill_ptrs-inside addr 0 0 txm.num_writes txm.cown_ptrs i low high
        (omega (arith, ok.size, ok.few_writes))
    ∙ resource-found mixed base db placed txm ok i (omega arith)

set-two :
    (ptrs : List ℕ) (a b : ℕ)
    → length ptrs ≡ 2
    → (get_or (set (set ptrs 0 a) 1 b) 0 0 ≡ a) × (get_or (set (set ptrs 0 a) 1 b) 1 0 ≡ b)
set-two [] a b h = absurd (omega arith)
set-two (x ∷ []) a b h = absurd (omega arith)
set-two (x ∷ y ∷ ptrs) a b h = (refl, refl)

-- With the rows in their places, a transaction acquires those that it means.
pub behaviours-rows :
    (t : Workload) (base : ℕ) (db : Database)
    → Placed t base db
    → (txm : Marshalled) → IsInTables t txm
    → map
        (λ (b : Behaviour). b.cowns)
        (behaviours t (record txm { cown_ptrs = found_ptrs t db txm }))
      ≡ rows_meant t base txm ∷ []
unfolding behaviours found_ptrs get_cown fill_ptrs
behaviours-rows mixed base db placed txm ok =
    let found = record txm { cown_ptrs = found_ptrs mixed db txm } in
    let one : leb 1 txm.num_writes ≡ true = ground (arith, ok.some_write) in
    let few : leb txm.num_writes max_length ≡ true = ground (arith, ok.few_writes) in
    let taken : switch_mixed txm.num_writes (get_cown found)
        ≡ some (map (get_cown found) (range_from 0 txm.num_writes)) =
      rw (switch_mixed-first txm.num_writes (get_cown found), one, few) refl in
    rw (taken, behaviours)
      (ap (λ l. l ∷ []) (map-agree _ _ 0 txm.num_writes (found-mixed base db placed txm ok)))
behaviours-rows nft base db placed txm ok =
    let (first, second) = set-two txm.cown_ptrs _ _ ok.size in
    ap₂ (λ a b. (a ∷ b ∷ []) ∷ [])
      (first ∙ resource-found nft base db placed txm ok 0 (omega arith))
      (second ∙ user-found nft base db placed txm ok 1 (omega arith) (omega arith))
behaviours-rows p2p base db placed txm ok =
    let (first, second) = set-two txm.cown_ptrs _ _ ok.size in
    ap₂ (λ a b. (a ∷ b ∷ []) ∷ [])
      (first ∙ user-found p2p base db placed txm ok 0 (omega arith) (omega arith))
      (second ∙ user-found p2p base db placed txm ok 1 (omega arith) (omega arith))
behaviours-rows dex base db placed txm ok =
    ap (λ a. (a ∷ []) ∷ [])
      (get_or-set_self txm.cown_ptrs 0 _ 0 (omega (arith, ok.size))
        ∙ resource-found dex base db placed txm ok 0 (omega arith))
