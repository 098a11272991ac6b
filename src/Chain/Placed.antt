-- ===== src/Chain/Placed.antt =====
-- What the loader of app/chain.cc leaves in the two tables.
use doradd_storage.Base.{ℕ, ◌+◌, ◌-◌, ◌*◌, ◌≤◌, ◌≡◌, refl, ◌∙◌, some, arith, subst, sub32}
use doradd_storage.Tables.{get_row, base_addr, new}
use doradd_storage.Tables.Filled.{IsFilled, place-IsFilled, for_ids-invariant, new-IsFilled}
use doradd_storage.Chain.{Workload, mixed, nft, p2p, dex, num_accounts, num_resrc}
use doradd_storage.Chain.Txn.{Database}
use doradd_storage.Chain.Load.{
  user_table_addr, add_resource, add_user, generate_resources, generate_users, empty_database,
  load_chain,
}

-- Where the loader puts the rows: the resources from `base` on, the users behind them.
pub record Placed (t : Workload) (base : ℕ) (db : Database) : Type 0 where
  pub resource_addr :
      (r : ℕ)
      → 1 ≤ r
      → r ≤ num_resrc t
      → base_addr (get_row db.resource_table (sub32 r 1)) ≡ base + 1024 * (r - 1)
  pub user_addr :
      (u : ℕ)
      → 1 ≤ u
      → u ≤ num_accounts
      → base_addr (get_row db.user_table (sub32 u 1)) ≡ base + 1024 * (num_resrc t + (u - 1))

num_resrc-le : (t : Workload) → num_resrc t ≤ 41_640
num_resrc-le mixed = omega arith
num_resrc-le nft = omega arith
num_resrc-le p2p = omega arith
num_resrc-le dex = omega arith

module _ (t : Workload) (base : ℕ) where
  record Progress (kr ku : ℕ) (db : Database) : Type 0 where
    resource_cnt : db.resource_table.cnt ≡ kr
    resource_fill : IsFilled (num_resrc t) base 1024 db.resource_table
    user_cnt : db.user_table.cnt ≡ ku
    user_fill : IsFilled num_accounts (user_table_addr t base) 1024 db.user_table

  generate_resources-Progress :
      (db : Database)
      → Progress 0 0 db
      → (db' : Database) × (generate_resources t base db ≡ some db') × Progress (num_resrc t) 0 db'
  unfolding generate_resources add_resource
  generate_resources-Progress db g =
      let (db', done, (k, e, g')) =
        for_ids-invariant (add_resource t base) (λ r db0. (k : ℕ) × (k + 1 ≡ r) × Progress k 0 db0)
          1 (num_resrc t)
          (λ r db0 low high (k, e, g0).
            let (table, done, cnt, fill) =
              place-IsFilled (num_resrc t) base 1024 (r - 1) (record { value = 0 })
                db0.resource_table g0.resource_fill (omega (arith, g0.resource_cnt))
                (omega arith) in
            (
              record db0 { resource_table = table },
              rw (done, add_resource) refl,
              (
                k + 1,
                omega arith,
                record {
                  resource_cnt = omega (arith, cnt);
                  resource_fill = fill;
                  user_cnt = g0.user_cnt;
                  user_fill = g0.user_fill;
                },
              ),
            ))
          db (0, refl, g) in
      (db', done, subst (λ n. Progress n 0 db') (omega arith) g')

  generate_users-Progress :
      (kr : ℕ) (db : Database)
      → Progress kr 0 db
      → (db' : Database) × (generate_users t base db ≡ some db') × Progress kr num_accounts db'
  unfolding generate_users add_user
  generate_users-Progress kr db g =
      let (db', done, (k, e, g')) =
        for_ids-invariant (add_user t base) (λ u db0. (k : ℕ) × (k + 1 ≡ u) × Progress kr k db0) 1
          num_accounts
          (λ u db0 low high (k, e, g0).
            let (table, done, cnt, fill) =
              place-IsFilled num_accounts (user_table_addr t base) 1024 (u - 1)
                (record { value = 0 }) db0.user_table g0.user_fill (omega (arith, g0.user_cnt))
                (omega arith) in
            (
              record db0 { user_table = table },
              rw (done, add_user) refl,
              (
                k + 1,
                omega arith,
                record {
                  resource_cnt = g0.resource_cnt;
                  resource_fill = g0.resource_fill;
                  user_cnt = omega (arith, cnt);
                  user_fill = fill;
                },
              ),
            ))
          db (0, refl, g) in
      (db', done, subst (λ n. Progress kr n db') (omega arith) g')

  -- The loader throws nothing, and every resource and every account finds, under its id less one, the
  -- cown at its own place of the one allocation: the resources in front, the users behind them.
  pub load_chain-Placed : (db : Database) × (load_chain t base ≡ some db) × Placed t base db
  unfolding load_chain new
  load_chain-Placed =
      let empty : Progress 0 0 (empty_database t) = record {
        resource_cnt = refl;
        resource_fill = new-IsFilled (num_resrc t) base 1024;
        user_cnt = refl;
        user_fill = new-IsFilled num_accounts (user_table_addr t base) 1024;
      } in
      let (db1, e1, g1) = generate_resources-Progress (empty_database t) empty in
      let (db2, e2, g2) = generate_users-Progress (num_resrc t) db1 g1 in
      let few = num_resrc-le t in
      (
        db2,
        rw (e1, load_chain) e2,
        record {
          resource_addr = λ r low high.
              g2.resource_fill.placed (sub32 r 1) (omega (arith, g2.resource_cnt)) ∙ omega arith;
          user_addr = λ u low high.
              g2.user_fill.placed (sub32 u 1) (omega (arith, g2.user_cnt)) ∙ omega arith;
        },
      )
