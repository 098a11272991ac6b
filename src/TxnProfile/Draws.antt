-- ===== src/TxnProfile/Draws.antt =====
-- app/txn_profile.cpp, gen_random_write_set and gen_random_txn. The draws of the random source are a
-- function of their number. The loop that draws until two differ has fuel.
use doradd_storage.Base.{
  ℕ, zero, suc, ◌+◌, ◌*◌, ◌^◌, ◌<◌, ◌≡◌, ◌≢◌, refl, ap, ◌∙◌, List, Option, some, none, arith,
  if◌then◌else◌, ◌==◌, ℕ_discrete, set, contains,
}
use doradd_storage.TxnProfile.{rows_per_tx}

-- One round takes the draws `k` and `k + 1`.
unfoldable pub write_set_from : ℕ → (ℕ → ℕ) → ℕ → Option ℕ
write_set_from zero draw k = none
write_set_from (suc fuel) draw k =
    let again = write_set_from fuel draw (k + 2) in
    if 2 ^ draw k == 2 ^ draw (k + 1) then again else some (2 ^ draw k + 2 ^ draw (k + 1))

unfoldable pub gen_random_write_set : ℕ → (ℕ → ℕ) → Option ℕ
gen_random_write_set fuel draw = write_set_from fuel draw 0

-- The array starts with what the memory holds; an index that it contains is not written, and the loop
-- goes on to the next place.
pub random_txn_from : ℕ → ℕ → (ℕ → ℕ) → List ℕ → List ℕ
random_txn_from zero i draw ret = ret
random_txn_from (suc n) i draw ret =
    random_txn_from n (i + 1) draw (if contains ret (draw i) then ret else set ret i (draw i))

pub gen_random_txn : (ℕ → ℕ) → List ℕ → List ℕ
unfolding random_txn_from
gen_random_txn draw memory = random_txn_from rows_per_tx 0 draw memory

double : (a : ℕ) → 2 ^ suc a ≡ 2 * 2 ^ a
double a = omega arith

pow_injective : (a b : ℕ) → 2 ^ a ≡ 2 ^ b → a ≡ b
pow_injective zero zero h = refl
pow_injective zero (suc b) h = absurd (omega (arith, double b))
pow_injective (suc a) zero h = absurd (omega (arith, double a))
pow_injective (suc a) (suc b) h = ap suc (pow_injective a b (omega (arith, double a, double b)))

write_set_from-two :
    (draw : ℕ → ℕ) (fuel n i : ℕ)
    → n < fuel
    → draw (i + 2 * n) ≢ draw (i + 2 * n + 1)
    → (k : ℕ) × (draw k ≢ draw (k + 1))
      × (write_set_from fuel draw i ≡ some (2 ^ draw k + 2 ^ draw (k + 1)))
unfolding write_set_from
write_set_from-two draw zero n i h other = absurd (omega arith)
write_set_from-two draw (suc fuel) zero i h other =
    (i, differ, ground (arith, pow_injective (draw i) (draw (i + 1))))
  where
    differ : draw i ≢ draw (i + 1)
    differ same = other (ap draw (omega arith) ∙ same ∙ ap draw (omega arith))
write_set_from-two draw (suc fuel) (suc n) i h other = elim (ℕ_discrete (draw i) (draw (i + 1))) [
  | no differ ↦ (i, differ, ground (arith, pow_injective (draw i) (draw (i + 1))))
  | yes same ↦
      let (k, differ, e) = write_set_from-two draw fuel n (i + 2) (omega arith) later in
      (k, differ, ground (arith, ap (λ d. 2 ^ d) same, e))
]
  where
    later : draw (i + 2 + 2 * n) ≢ draw (i + 2 + 2 * n + 1)
    later e = other (ap draw (omega arith) ∙ e ∙ ap draw (omega arith))

-- When the draws 2 n and 2 n + 1 differ for some n below the fuel, the loop ends, and the write set has
-- two different bits: those of two consecutive draws that differ.
pub gen_random_write_set-two :
    (draw : ℕ → ℕ) (fuel n : ℕ)
    → n < fuel
    → draw (2 * n) ≢ draw (2 * n + 1)
    → (k : ℕ) × (draw k ≢ draw (k + 1))
      × (gen_random_write_set fuel draw ≡ some (2 ^ draw k + 2 ^ draw (k + 1)))
unfolding gen_random_write_set
gen_random_write_set-two draw fuel n h other =
    write_set_from-two draw fuel n 0 h
      (λ e. other (ap draw (omega arith) ∙ e ∙ ap draw (omega arith)))
