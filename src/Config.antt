-- ===== src/Config.antt =====
-- src/doradd/config.hpp: the constants of the dispatch pipeline.
use doradd_storage.Base.{ℕ}

abbrev pub max_batch : ℕ
max_batch = 4

abbrev pub rpc_log_size : ℕ
rpc_log_size = 1_000_000

abbrev pub announce_throughput_batch_size : ℕ
announce_throughput_batch_size = 1_000_000

abbrev pub channel_size : ℕ
channel_size = 2

abbrev pub channel_size_idx_pref : ℕ
channel_size_idx_pref = 2
