-- ===== src/Base/Bits.antt =====
-- Exclusive or at variables: when it is zero, and how many digits it has.
use Prim.Native.Nat.{ℕ, zero, suc, ◌*◌, ◌/◌, ◌%◌, ◌≤◌, ◌<◌, digits, differ, bit_xor-bitwise}
use mathlib.Core.Path.{◌≡◌, ap, sym, ◌∙◌}
use native.Mathlib.Omega.{arith}
pub use Prim.Native.Nat.{bit_xor}

differ-zero : (x y : ℕ) → differ x y ≡ 0 → x ≡ y
differ-zero zero y h = sym h
differ-zero (suc x) zero h = h
differ-zero (suc x) (suc y) h = ap suc (differ-zero x y h)

differ-bit : (x y : ℕ) → x < 2 → y < 2 → differ x y < 2
differ-bit zero y hx hy = hy
differ-bit (suc x) zero hx hy = hx
differ-bit (suc x) (suc y) hx hy = differ-bit x y (omega arith) (omega arith)

abbrev xor_digits : ℕ → ℕ → ℕ → ℕ
xor_digits n a b = digits (λ b. b) differ n a b

xor_digits-zero : (n a b : ℕ) → a ≤ n → xor_digits n a b ≡ 0 → a ≡ b
xor_digits-zero zero zero b le h = sym h
xor_digits-zero zero (suc a) b le h = absurd (omega arith)
xor_digits-zero (suc n) zero b le h = sym h
xor_digits-zero (suc n) (suc a) b le h =
    let high = xor_digits-zero n (suc a / 2) (b / 2) (omega arith) (omega arith) in
    let low = differ-zero (suc a % 2) (b % 2) (omega arith) in omega arith

-- Only a number itself cancels it.
pub bit_xor-cancels : (a b : ℕ) → bit_xor a b ≡ 0 → a ≡ b
bit_xor-cancels a b h = xor_digits-zero a a b (omega arith) (sym (bit_xor-bitwise a b) ∙ h)

-- 2 ^ k
abbrev pub power : ℕ → ℕ
power zero = 1
power (suc k) = power k * 2

xor_digits-bound : (k n a b : ℕ) → a ≤ n → a < power k → b < power k → xor_digits n a b < power k
xor_digits-bound k zero a b le ha hb = hb
xor_digits-bound k (suc n) zero b le ha hb = hb
xor_digits-bound zero (suc n) (suc a) b le ha hb = absurd (omega arith)
xor_digits-bound (suc k) (suc n) (suc a) b le ha hb = omega (
  arith,
  xor_digits-bound k n (suc a / 2) (b / 2) (omega arith) (omega arith) (omega arith),
  differ-bit (suc a % 2) (b % 2) (omega arith) (omega arith),
)

pub bit_xor-bound : (k a b : ℕ) → a < power k → b < power k → bit_xor a b < power k
bit_xor-bound k a b ha hb =
    omega (arith, xor_digits-bound k a a b (omega arith) ha hb, bit_xor-bitwise a b)
