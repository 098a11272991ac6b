-- ===== src/Chain/Spin.antt =====
-- The lambdas of app/chain.cc: BODY and SPIN_RUN of app/chain/macros.hpp.
--
-- `clock k` is the k-th reading of `time_ns()` by the thread. The loop has fuel for its readings, and
-- `none` means that it ran out.
use doradd_storage.Base.{
  ℕ, zero, suc, ◌+◌, ◌*◌, ◌≤◌, ◌<◌, ◌≡◌, Option, none, some, if◌then◌else◌, ltb, mul32, arith,
  dec_lt,
}
use doradd_storage.Chain.{Workload, mixed, nft, p2p, dex, serv_time, max_gas}

-- `while (time_ns() < next_ts) _mm_pause();` from reading `k` on: the number of the last reading.
unfoldable pub spin : ℕ → (ℕ → ℕ) → ℕ → ℕ → Option ℕ
spin zero clock k next_ts = none
spin (suc fuel) clock k next_ts =
    let again = spin fuel clock (k + 1) next_ts in if ltb (clock k) next_ts then again else some k

-- What is added to the time at the start: the gas is multiplied in 32 bits.
unfoldable pub delay : Workload → ℕ → ℕ
delay mixed gas = 146_000 + mul32 12_000 gas
delay nft gas = serv_time nft
delay p2p gas = serv_time p2p
delay dex gas = serv_time dex

-- The lambda up to the count, from reading `k` on.
unfoldable pub body : Workload → ℕ → ℕ → (ℕ → ℕ) → ℕ → Option ℕ
body t gas fuel clock k = spin fuel clock (k + 1) (clock k + delay t gas)

-- The time that the workload's parameters promise.
abbrev pub service : Workload → ℕ → ℕ
service mixed gas = 146_000 + 12_000 * gas
service t gas = serv_time t

spin_lem :
    (fuel : ℕ) (clock : ℕ → ℕ) (k next_ts late : ℕ)
    → k ≤ late
    → next_ts ≤ clock late
    → late < k + fuel
    → (j : ℕ) × (spin fuel clock k next_ts ≡ some j)
      × (next_ts ≤ clock j)
      × (j ≤ late)
      × ((i : ℕ) → k ≤ i → i < j → clock i < next_ts)
unfolding spin
spin_lem zero clock k next_ts late h e f = absurd (omega arith)
spin_lem (suc fuel) clock k next_ts late h e f = elim (dec_lt (clock k) next_ts) [
  | yes early ↦
      let next : k + 1 ≤ late = elim (dec_lt k late) [
        | yes p ↦ omega arith
        | no p ↦ absurd (
            let same : k ≡ late = omega arith in
            let e' : next_ts ≤ clock k = rw same e in omega arith)
      ] in
      let (j, done, reached, before, waits) =
        spin_lem fuel clock (k + 1) next_ts late next e (omega arith) in
      (
        j,
        ground arith,
        reached,
        before,
        λ i low high. elim (dec_lt k i) [
          | yes p ↦ waits i (omega arith) high
          | no p ↦ let same : i ≡ k = omega arith in rw same early
        ],
      )
  | no arrived ↦ (k, ground arith, omega arith, h, λ i low high. absurd (omega arith))
]

-- On any clock that reaches the end of the service time, the lambda of a transaction whose gas does
-- not exceed MAX_GAS ends: at the first reading that is not before that end.
pub body-serves :
    (t : Workload) (gas fuel : ℕ) (clock : ℕ → ℕ) (k late : ℕ)
    → gas ≤ max_gas
    → k < late
    → clock k + service t gas ≤ clock late
    → late ≤ k + fuel
    → (j : ℕ) × (body t gas fuel clock k ≡ some j)
      × (clock k + service t gas ≤ clock j)
      × ((i : ℕ) → k < i → i < j → clock i < clock k + service t gas)
unfolding body delay
body-serves mixed gas fuel clock k late small later reached enough =
    let exact : 146_000 + mul32 12_000 gas ≡ 146_000 + 12_000 * gas = omega arith in
    let (j, done, end, before, waits) =
      spin_lem fuel clock (k + 1) (clock k + (146_000 + 12_000 * gas)) late (omega arith) reached
        (omega arith) in
    (j, rw (exact, body) done, end, λ i low high. waits i (omega arith) high)
body-serves nft gas fuel clock k late small later reached enough =
    let (j, done, end, before, waits) =
      spin_lem fuel clock (k + 1) _ late (omega arith) reached (omega arith) in
    (j, done, end, λ i low high. waits i (omega arith) high)
body-serves p2p gas fuel clock k late small later reached enough =
    let (j, done, end, before, waits) =
      spin_lem fuel clock (k + 1) _ late (omega arith) reached (omega arith) in
    (j, done, end, λ i low high. waits i (omega arith) high)
body-serves dex gas fuel clock k late small later reached enough =
    let (j, done, end, before, waits) =
      spin_lem fuel clock (k + 1) _ late (omega arith) reached (omega arith) in
    (j, done, end, λ i low high. waits i (omega arith) high)
