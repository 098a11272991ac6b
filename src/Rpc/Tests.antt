-- ===== src/Rpc/Tests.antt =====
-- The theorem on src/doradd/rpc_handler.hpp at a concrete input.
use doradd_storage.Base.{ℕ, ◌≤◌, ◌<◌, ◌≡◌, List, [], ◌∷◌, some}
use doradd_storage.Config.{rpc_log_size}
use doradd_storage.Rpc.{Tick, new_rpc_handler, run}
use doradd_storage.Rpc.Stamps.{run-stamped}

abbrev ticks : List Tick
ticks =
    record { time_ns = 90; now = 5; inter_arrival = 10 }
    ∷ record { time_ns = 101; now = 6; inter_arrival = 10 }
    ∷ record { time_ns = 102; now = 7; inter_arrival = 10 }
    ∷ []

run-stamped_example :
    ((run ticks (new_rpc_handler 100)).avail_cnt ≤ rpc_log_size)
    × (0 < (run ticks (new_rpc_handler 100)).avail_cnt
        → (now : ℕ) × ((run ticks (new_rpc_handler 100)).log 0 ≡ some now)
          × ((run ticks (run ticks (new_rpc_handler 100))).log 0 ≡ some now))
run-stamped_example = run-stamped 100 ticks ticks 0
