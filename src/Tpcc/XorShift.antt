-- ===== src/Tpcc/XorShift.antt =====
-- The states of XORRandom of app/tpcc/fastrandom.hpp.
use doradd_storage.Base.{
  ℕ, zero, suc, ◌*◌, ◌/◌, ◌%◌, ◌^◌, ◌<◌, ◌≡◌, arith, bit_xor, bit_xor-bound, bit_xor-cancels,
  u32_mod, u64_mod, dec_lt,
}
use doradd_storage.Tpcc.FastRandom.{xor_next, xor_random_32, xor_random_64}

-- A state of a generator of `m` values that draws on: not 0, which every shift keeps.
abbrev pub IsAlive : ℕ → ℕ → Type 0
IsAlive m x = (0 < x) × (x < m)

IsAlive-bit_xor : (m a b : ℕ) → bit_xor a b < m → (a ≡ b → 0 < 0) → IsAlive m (bit_xor a b)
IsAlive-bit_xor m a b small apart = elim (dec_lt 0 (bit_xor a b)) [
  | yes pos ↦ (pos, small)
  | no none ↦ absurd (let h = apart (bit_xor-cancels a b (omega arith)) in omega arith)
]

IsAlive-bit_xor_64 :
    (a b : ℕ) → a < u64_mod → b < u64_mod → (a ≡ b → 0 < 0) → IsAlive u64_mod (bit_xor a b)
IsAlive-bit_xor_64 a b ha hb apart = IsAlive-bit_xor u64_mod a b (bit_xor-bound 64 a b ha hb) apart

IsAlive-bit_xor_32 :
    (a b : ℕ) → a < u32_mod → b < u32_mod → (a ≡ b → 0 < 0) → IsAlive u32_mod (bit_xor a b)
IsAlive-bit_xor_32 a b ha hb apart = IsAlive-bit_xor u32_mod a b (bit_xor-bound 32 a b ha hb) apart

next-IsAlive_64 : (x : ℕ) → IsAlive u64_mod x → IsAlive u64_mod (xor_next u64_mod x)
unfolding xor_next
next-IsAlive_64 x h =
    let x1 = bit_xor x (x * 2 ^ 13 % u64_mod) in
    let h1 = IsAlive-bit_xor_64 x (x * 2 ^ 13 % u64_mod) h.1 (omega arith) (λ e. omega arith) in
    let x2 = bit_xor x1 (x1 / 2 ^ 7) in
    let h2 = IsAlive-bit_xor_64 x1 (x1 / 2 ^ 7) h1.1 (omega arith) (λ e. omega (arith, h1.0)) in
    IsAlive-bit_xor_64 x2 (x2 * 2 ^ 17 % u64_mod) h2.1 (omega arith)
      (λ e. omega (arith, h2.0, h2.1))

next-IsAlive_32 : (x : ℕ) → IsAlive u32_mod x → IsAlive u32_mod (xor_next u32_mod x)
unfolding xor_next
next-IsAlive_32 x h =
    let x1 = bit_xor x (x * 2 ^ 13 % u32_mod) in
    let h1 = IsAlive-bit_xor_32 x (x * 2 ^ 13 % u32_mod) h.1 (omega arith) (λ e. omega arith) in
    let x2 = bit_xor x1 (x1 / 2 ^ 7) in
    let h2 = IsAlive-bit_xor_32 x1 (x1 / 2 ^ 7) h1.1 (omega arith) (λ e. omega (arith, h1.0)) in
    IsAlive-bit_xor_32 x2 (x2 * 2 ^ 17 % u32_mod) h2.1 (omega arith)
      (λ e. omega (arith, h2.0, h2.1))

-- The state after `n` draws.
abbrev pub drawn : ℕ → ℕ → ℕ → ℕ
drawn m zero x = x
drawn m (suc n) x = xor_next m (drawn m n x)

drawn-IsAlive_64 : (n : ℕ) → IsAlive u64_mod (drawn u64_mod n xor_random_64)
drawn-IsAlive_64 zero = (omega arith, omega arith)
drawn-IsAlive_64 (suc n) = next-IsAlive_64 (drawn u64_mod n xor_random_64) (drawn-IsAlive_64 n)

drawn-IsAlive_32 : (n : ℕ) → IsAlive u32_mod (drawn u32_mod n xor_random_32)
drawn-IsAlive_32 zero = (omega arith, omega arith)
drawn-IsAlive_32 (suc n) = next-IsAlive_32 (drawn u32_mod n xor_random_32) (drawn-IsAlive_32 n)

-- Neither generator ever comes to the state 0, where it would stay for good: from its seed on, however
-- many numbers are drawn, the state is positive, and it stays within the width of its type.
pub drawn-IsAlive :
    (n : ℕ)
    → IsAlive u32_mod (drawn u32_mod n xor_random_32)
      × IsAlive u64_mod (drawn u64_mod n xor_random_64)
drawn-IsAlive n = (drawn-IsAlive_32 n, drawn-IsAlive_64 n)
