-- ===== src/Chain/Load.antt =====
-- ChainGenerator of app/chain/generator.hpp, and the part of `main` of app/chain.cc that allocates the
-- rows and fills the tables. The allocation starts at `base`, and the users lie behind the resources.
use doradd_storage.Base.{ℕ, ◌+◌, ◌-◌, ◌*◌, Option, none, some, ◌>>=◌}
use doradd_storage.Tables.{new, for_ids, place}
use doradd_storage.Chain.{Workload, num_accounts, num_resrc}
use doradd_storage.Chain.Txn.{Database}

abbrev pub user_table_addr : Workload → ℕ → ℕ
user_table_addr t base = base + 1024 * num_resrc t

unfoldable pub add_resource : Workload → ℕ → ℕ → Database → Option Database
add_resource t base r_id db =
    elim (place (num_resrc t) base 1024 (r_id - 1) (record { value = 0 }) db.resource_table) [
      | none ↦ none
      | some table ↦ some (record db { resource_table = table })
    ]

unfoldable pub generate_resources : Workload → ℕ → Database → Option Database
generate_resources t base db = for_ids (add_resource t base) 1 (num_resrc t) db

unfoldable pub add_user : Workload → ℕ → ℕ → Database → Option Database
add_user t base u_id db =
    elim (place num_accounts (user_table_addr t base) 1024 (u_id - 1) (record { value = 0 })
      db.user_table) [ none ↦ none | some table ↦ some (record db { user_table = table }) ]

unfoldable pub generate_users : Workload → ℕ → Database → Option Database
generate_users t base db = for_ids (add_user t base) 1 num_accounts db

abbrev pub empty_database : Workload → Database
empty_database t = record { resource_table = new (num_resrc t); user_table = new num_accounts }

unfoldable pub load_chain : Workload → ℕ → Option Database
load_chain t base = do db ← generate_resources t base (empty_database t); generate_users t base db
