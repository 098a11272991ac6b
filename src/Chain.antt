-- ===== src/Chain.antt =====
-- The chain benchmark: app/chain.cc and app/chain/*.hpp. This file has the constants of
-- app/chain/constants.hpp, one function for each that the four classes Mixed, Nft, P2p and Dex declare.
pub mod Switch
pub mod Cases
pub mod Txn
pub mod Spin
pub mod Load
pub mod Placed
pub mod Acquire
pub mod Loaded
mod Tests
use doradd_storage.Base.{ℕ}

pub data Workload : Type 0 where
  mixed nft p2p dex : Workload

abbrev pub num_accounts : ℕ
num_accounts = 289_023

abbrev pub num_cown : Workload → ℕ
num_cown mixed = 38
num_cown nft = 2
num_cown p2p = 2
num_cown dex = 1

abbrev pub num_resrc_cown : Workload → ℕ
num_resrc_cown mixed = 38
num_resrc_cown nft = 1
num_resrc_cown p2p = 0
num_resrc_cown dex = 1

abbrev pub num_resrc : Workload → ℕ
num_resrc mixed = 41_640
num_resrc nft = 844
num_resrc p2p = 0
num_resrc dex = 330

abbrev pub max_length : ℕ
max_length = 38

abbrev pub max_gas : ℕ
max_gas = 2270

abbrev pub marshalled_size : Workload → ℕ
marshalled_size mixed = 512
marshalled_size nft = 64
marshalled_size p2p = 64
marshalled_size dex = 64

-- The time that a transaction takes, in nanoseconds; Mixed has none, its transactions carry their gas.
abbrev pub serv_time : Workload → ℕ
serv_time mixed = 0
serv_time nft = 240_000
serv_time p2p = 334_000
serv_time dex = 240_000
