-- ===== src/Rpc/Stamps.antt =====
-- That RPCHandler of src/doradd/rpc_handler.hpp stamps a request before it counts it. What another thread
-- sees of the stamps when it has read the count is not said here: the count is added and loaded with
-- memory_order_relaxed.
use doradd_storage.Base.{
  ℕ, ◌+◌, ◌≤◌, ◌<◌, ◌≡◌, refl, ◌∙◌, List, [], ◌∷◌, some, arith, subst, dec_lt,
}
use doradd_storage.Config.{rpc_log_size}
use doradd_storage.Rpc.{
  Phase, waiting, counting, stopped, RpcHandler, new_rpc_handler, Tick, stamp, count, step_at, step,
  run,
}

-- By how much the stamps are ahead of the count.
abbrev pub ahead : Phase → ℕ
ahead waiting = 0
ahead counting = 1
ahead stopped = 0

pub record IsValid (r : RpcHandler) : Type 0 where
  pub counted : r.i ≡ r.avail_cnt + ahead r.phase
  pub in_log : r.i ≤ rpc_log_size
  pub stamped : (k : ℕ) → k < r.i → (now : ℕ) × (r.log k ≡ some now)

stamp-IsValid :
    (now : ℕ) (r : RpcHandler)
    → IsValid r
    → r.phase ≡ waiting
    → r.i < rpc_log_size
    → IsValid (stamp now r)
unfolding stamp
stamp-IsValid now r v e room =
    let level : r.i ≡ r.avail_cnt + 0 = subst (λ ph. r.i ≡ r.avail_cnt + ahead ph) e v.counted in
    record {
      counted = omega arith;
      in_log = omega arith;
      stamped = λ k h. elim (dec_lt k r.i) [
        | yes p ↦ let (old, eq) = v.stamped k p in (old, ground arith)
        | no p ↦ (now, ground arith)
      ];
    }

count-IsValid : (gap : ℕ) (r : RpcHandler) → IsValid r → r.phase ≡ counting → IsValid (count gap r)
unfolding count
count-IsValid gap r v e =
    let level : r.i ≡ r.avail_cnt + 1 = subst (λ ph. r.i ≡ r.avail_cnt + ahead ph) e v.counted in
    record { counted = omega (arith, v.in_log); in_log = v.in_log; stamped = v.stamped }

stop-IsValid :
    (r : RpcHandler) → IsValid r → r.phase ≡ waiting → IsValid (record r { phase = stopped })
stop-IsValid r v e = record {
  counted = subst (λ ph. r.i ≡ r.avail_cnt + ahead ph) e v.counted;
  in_log = v.in_log;
  stamped = v.stamped;
}

pub step_at-IsValid :
    (ph : Phase) (t : Tick) (r : RpcHandler) → IsValid r → r.phase ≡ ph → IsValid (step_at ph t r)
unfolding step_at
step_at-IsValid waiting t r v e = elim (dec_lt t.time_ns r.next_ts) [
  | yes early ↦ subst IsValid (ground arith) v
  | no late ↦ elim (dec_lt r.i rpc_log_size) [
    | yes room ↦ subst IsValid (ground arith) (stamp-IsValid t.now r v e room)
    | no full ↦ subst IsValid (ground arith) (stop-IsValid r v e)
  ]
]
step_at-IsValid counting t r v e = count-IsValid t.inter_arrival r v e
step_at-IsValid stopped t r v e = v

pub step_at-keeps :
    (ph : Phase) (t : Tick) (r : RpcHandler) (k : ℕ)
    → k < r.i
    → ((step_at ph t r).log k ≡ r.log k) × (r.i ≤ (step_at ph t r).i)
unfolding step_at stamp count
step_at-keeps waiting t r k h = (ground arith, ground arith)
step_at-keeps counting t r k h = (refl, omega arith)
step_at-keeps stopped t r k h = (refl, omega arith)

pub step_at-grows :
    (ph : Phase) (t : Tick) (r : RpcHandler)
    → IsValid r
    → r.phase ≡ ph
    → r.avail_cnt ≤ (step_at ph t r).avail_cnt
unfolding step_at stamp count
step_at-grows waiting t r v e = ground arith
step_at-grows counting t r v e =
    let level : r.i ≡ r.avail_cnt + 1 = subst (λ ph. r.i ≡ r.avail_cnt + ahead ph) e v.counted in
    omega (arith, v.in_log, level)
step_at-grows stopped t r v e = omega arith

run-IsValid : (ts : List Tick) (r : RpcHandler) → IsValid r → IsValid (run ts r)
unfolding run step
run-IsValid [] r v = v
run-IsValid (t ∷ ts) r v = run-IsValid ts (step t r) (step_at-IsValid r.phase t r v refl)

run-keeps : (ts : List Tick) (r : RpcHandler) (k : ℕ) → k < r.i → (run ts r).log k ≡ r.log k
unfolding run step
run-keeps [] r k h = refl
run-keeps (t ∷ ts) r k h =
    let (same, grows) = step_at-keeps r.phase t r k h in
    run-keeps ts (step t r) k (omega arith) ∙ same

pub new-IsValid : (time_ns : ℕ) → IsValid (new_rpc_handler time_ns)
unfolding new_rpc_handler
new-IsValid time_ns = record {
  counted = refl;
  in_log = omega arith;
  stamped = λ k h. absurd (omega arith);
}

-- At any point of the handler's run, in the order of its own steps: the count never exceeds the size of the array of time stamps; the
-- slot of every request that is counted holds a stamp; and that stamp is final, whatever the handler
-- does afterwards.
pub run-stamped :
    (time_ns : ℕ) (ts later : List Tick) (k : ℕ)
    → let r = run ts (new_rpc_handler time_ns) in
      (r.avail_cnt ≤ rpc_log_size)
      × (k < r.avail_cnt → (now : ℕ) × (r.log k ≡ some now) × ((run later r).log k ≡ some now))
run-stamped time_ns ts later k =
    let r = run ts (new_rpc_handler time_ns) in
    let v = run-IsValid ts (new_rpc_handler time_ns) (new-IsValid time_ns) in
    (
      omega (arith, v.counted, v.in_log),
      λ h.
          let written : k < r.i = omega (arith, v.counted) in
          let (now, e) = v.stamped k written in (now, e, run-keeps later r k written ∙ e),
    )
