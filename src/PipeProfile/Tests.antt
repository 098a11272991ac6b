-- ===== src/PipeProfile/Tests.antt =====
-- The theorem on the chain of cores at a concrete run.
use doradd_storage.Base.{ℕ, ◌+◌, ◌*◌, ◌≤◌, ◌≡◌, ◌⊎◌, refl, true, some, arith}
use doradd_storage.PipeProfile.{
  System, write_txn, start, terminate, has_input, has_room, advance, pass_on, round,
}
use doradd_storage.PipeProfile.Progress.{Run, Run-progress}

abbrev ready : System
ready = start 4096 1000 (λ a. 0)

-- A FirstCore and a LastCore: one round of each.
abbrev both : System
both = advance write_txn 1 1 (advance write_txn 1 0 ready)

both-Run : Run write_txn 1 ready 2 both
unfolding round terminate has_input has_room advance pass_on
both-Run = Run.next {k = 1} (Run.next {k = 0} Run.begin (omega arith) refl) (omega arith) refl

Run-progress_example :
    (2 ≤ 5_000_000 * (1 + 1))
    × (((k : ℕ) → k ≤ 1 → terminate (both.cores k) ≡ true)
        ⊎ ((k : ℕ) × (k ≤ 1) × (s' : System) × (round write_txn 1 k both ≡ some s')))
Run-progress_example = Run-progress write_txn 1 4096 1000 (λ a. 0) 2 both both-Run
