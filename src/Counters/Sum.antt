-- ===== src/Counters/Sum.antt =====
-- What the dispatcher's sum over the registered counters says about the transactions executed.
use doradd_storage.Base.{
  ℕ, suc, ◌+◌, ◌≤◌, ◌<◌, ◌≡◌, ap, ◌∙◌, List, [], ◌∷◌, arith, All, u64_mod, add64,
}
use doradd_storage.Dispatch.{calc_tx_exec_sum}
use doradd_storage.Counters.{
  sample_rate, TxCounter, Event, executed, new_order, exited, instance_of, update, step, steps,
  counter_map,
}
use doradd_storage.Counters.Update.{
  total, IsSampled, step-executed, step-new_order, count-incr, count-log_latency, IsSampled-incr,
  IsSampled-log_latency, total-update, registered-instance_of, total-instance_of, All-update,
  total-destroy, All-destroy, All-instance_of,
}

unfoldable pub executions : List Event → ℕ
executions [] = 0
executions (executed thread micros ∷ es) = suc (executions es)
executions (new_order thread micros ∷ es) = suc (executions es)
executions (exited thread ∷ es) = executions es

unfoldable pub exits : List Event → ℕ
exits [] = 0
exits (executed thread micros ∷ es) = exits es
exits (new_order thread micros ∷ es) = exits es
exits (exited thread ∷ es) = suc (exits es)

calc_tx_exec_sum-total :
    (cs : List TxCounter) (sum : ℕ)
    → sum + total cs < u64_mod
    → calc_tx_exec_sum (counter_map cs) sum ≡ sum + total cs
unfolding calc_tx_exec_sum total
calc_tx_exec_sum-total [] sum h = omega arith
calc_tx_exec_sum-total (c ∷ cs) sum h =
    let no_wrap : add64 sum c.tx_cnt ≡ sum + c.tx_cnt = omega arith in
    omega (arith, calc_tx_exec_sum-total cs (add64 sum c.tx_cnt) (omega arith))

-- The events of a program that logs the first (`late` is 9) or the last (`late` is 0) of ten.
abbrev pub Logs : ℕ → Event → Type 0
Logs late (executed thread micros) = late ≡ 9
Logs late (new_order thread micros) = late ≡ 0
Logs late (exited thread) = Unit

counted :
    (thread : ℕ) (f : TxCounter → TxCounter) (cs : List TxCounter)
    → ((c : TxCounter) → c.tx_cnt ≤ total cs → (f c).tx_cnt ≡ c.tx_cnt + 1)
    → total (update thread f (instance_of thread cs)) ≡ total cs + 1
counted thread f cs adds =
    let same = total-instance_of thread cs in
    total-update thread 1 f (instance_of thread cs) (λ c low. adds c (omega (arith, same)))
      (registered-instance_of thread cs)
    ∙ ap (λ n. n + 1) same

sampled :
    (late thread : ℕ) (f : TxCounter → TxCounter) (cs : List TxCounter)
    → late < sample_rate
    → ((c : TxCounter) → c.tx_cnt ≤ total cs → IsSampled late c → IsSampled late (f c))
    → All (IsSampled late) cs
    → All (IsSampled late) (update thread f (instance_of thread cs))
sampled late thread f cs small keeps ok =
    All-update late thread (total cs) f (instance_of thread cs) keeps
      (omega (arith, total-instance_of thread cs)) (All-instance_of late thread cs small ok)

executed-counted :
    (thread micros : ℕ) (cs : List TxCounter)
    → total cs + 1 < u64_mod
    → total (step (executed thread micros) cs) ≡ total cs + 1
executed-counted thread micros cs h =
    rw (step-executed thread micros cs)
      (counted thread _ cs (λ c low. count-incr micros c (omega arith)))

new_order-counted :
    (thread micros : ℕ) (cs : List TxCounter)
    → total cs + 1 < u64_mod
    → total (step (new_order thread micros) cs) ≡ total cs + 1
new_order-counted thread micros cs h =
    rw (step-new_order thread micros cs)
      (counted thread _ cs (λ c low. count-log_latency micros c (omega arith)))

exited-counted : (thread : ℕ) (cs : List TxCounter) → total (step (exited thread) cs) ≤ total cs
unfolding step
exited-counted thread cs = total-destroy thread cs

step-IsSampled :
    (late : ℕ) (e : Event) (cs : List TxCounter)
    → late < sample_rate
    → total cs + 1 < u64_mod
    → Logs late e
    → All (IsSampled late) cs
    → All (IsSampled late) (step e cs)
unfolding step
step-IsSampled late (executed thread micros) cs small h kind ok =
    rw (step-executed thread micros cs) (
      sampled late thread _ cs small
        (λ c low had. rw kind (IsSampled-incr micros c (omega arith) (rw kind at had))) ok)
step-IsSampled late (new_order thread micros) cs small h kind ok =
    rw (step-new_order thread micros cs) (
      sampled late thread _ cs small
        (λ c low had. rw kind (IsSampled-log_latency micros c (omega arith) (rw kind at had))) ok)
step-IsSampled late (exited thread) cs small h kind ok = All-destroy late thread cs ok

steps-counted :
    (events : List Event) (cs : List TxCounter)
    → total cs + executions events < u64_mod
    → (total (steps events cs) ≤ total cs + executions events)
      × (exits events ≡ 0 → total (steps events cs) ≡ total cs + executions events)
unfolding steps executions exits
steps-counted [] cs h = (omega arith, λ e. omega arith)
steps-counted (executed thread micros ∷ es) cs h =
    let one_more = executed-counted thread micros cs (omega arith) in
    let (low, exact) = steps-counted es (step (executed thread micros) cs) (omega arith) in
    (omega (arith, one_more), λ e. omega (arith, one_more, exact e))
steps-counted (new_order thread micros ∷ es) cs h =
    let one_more = new_order-counted thread micros cs (omega arith) in
    let (low, exact) = steps-counted es (step (new_order thread micros) cs) (omega arith) in
    (omega (arith, one_more), λ e. omega (arith, one_more, exact e))
steps-counted (exited thread ∷ es) cs h =
    let less = exited-counted thread cs in
    let (low, exact) = steps-counted es (step (exited thread) cs) (omega arith) in
    (omega (arith, less), λ e. absurd (omega arith))

steps-IsSampled :
    (late : ℕ) (events : List Event) (cs : List TxCounter)
    → late < sample_rate
    → total cs + executions events + 1 < u64_mod
    → All (Logs late) events
    → All (IsSampled late) cs
    → All (IsSampled late) (steps events cs)
unfolding steps executions
steps-IsSampled late [] cs small h kinds ok = ok
steps-IsSampled late (executed thread micros ∷ es) cs small h (kind, kinds) ok =
    let one_more = executed-counted thread micros cs (omega arith) in
    steps-IsSampled late es (step (executed thread micros) cs) small (omega arith) kinds
      (step-IsSampled late (executed thread micros) cs small (omega arith) kind ok)
steps-IsSampled late (new_order thread micros ∷ es) cs small h (kind, kinds) ok =
    let one_more = new_order-counted thread micros cs (omega arith) in
    steps-IsSampled late es (step (new_order thread micros) cs) small (omega arith) kinds
      (step-IsSampled late (new_order thread micros) cs small (omega arith) kind ok)
steps-IsSampled late (exited thread ∷ es) cs small h (kind, kinds) ok =
    let less = exited-counted thread cs in
    steps-IsSampled late es (step (exited thread) cs) small (omega arith) kinds
      (step-IsSampled late (exited thread) cs small (omega arith) kind ok)

-- What the sum over the registered counters and the logged latencies are after some events.
pub calc_tx_exec_sum-executions :
    (events : List Event)
    → executions events + 1 < u64_mod
    → (calc_tx_exec_sum (counter_map (steps events [])) 0 ≤ executions events)
      × (exits events ≡ 0 → calc_tx_exec_sum (counter_map (steps events [])) 0 ≡ executions events)
      × (All (Logs 9) events → All (IsSampled 9) (steps events []))
      × (All (Logs 0) events → All (IsSampled 0) (steps events []))
unfolding total
calc_tx_exec_sum-executions events h =
    let (low, exact) = steps-counted events [] (omega arith) in
    let sum = calc_tx_exec_sum-total (steps events []) 0 (omega arith) in
    (
      omega (arith, sum),
      λ e. omega (arith, sum, exact e),
      λ kinds. steps-IsSampled 9 events [] (omega arith) (omega arith) kinds tt,
      λ kinds. steps-IsSampled 0 events [] (omega arith) (omega arith) kinds tt,
    )
