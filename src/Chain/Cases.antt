-- ===== src/Chain/Cases.antt =====
-- What the switch of app/chain.cc amounts to.
use doradd_storage.Base.{ℕ, ◌≡◌, map, none, some, if◌then◌else◌, leb, ◌&&◌, range_from, arith}
use doradd_storage.Chain.{max_length}
use doradd_storage.Chain.Switch.{switch_mixed}

-- Each of the 38 cases acquires the first cowns of the transaction, one for each write, in order; a
-- transaction of no write, or of more than 38, is passed over.
pub switch_mixed-first :
    (num_writes : ℕ) (r : ℕ → ℕ)
    → switch_mixed num_writes r ≡ (
        if leb 1 num_writes && leb num_writes max_length
        then some (map r (range_from 0 num_writes))
        else none)
unfolding switch_mixed
switch_mixed-first num_writes r = ground arith
