-- ===== src/Base/Elements.antt =====
-- Whether a list of numbers contains a number, lists without repetition, and the pigeonhole principle.
use Prim.Native.Nat.{ℕ, zero, suc, ◌<◌}
use mathlib.Core.Path.{◌≡◌, refl}
use mathlib.Core.Logic.{◌≢◌, inl, inr}
use mathlib.Core.List.{List, [], ◌∷◌, ◌++◌}
use mathlib.Core.Bool.{Bool, true, false, ◌||◌}
use native.Mathlib.Omega.{arith}
use doradd_storage.Base.Tests.{◌==◌, if◌then◌else◌, Bool-cases}
use doradd_storage.Base.Lists.{length}

-- `std::find`
abbrev pub contains : List ℕ → ℕ → Bool
contains [] x = false
contains (y ∷ ys) x = y == x || contains ys x

-- No two elements are the same.
abbrev pub IsDistinct : List ℕ → Type 0
IsDistinct [] = Unit
IsDistinct (x ∷ xs) = (contains xs x ≡ false) × IsDistinct xs

-- The list without the first element that is `x`.
abbrev without : List ℕ → ℕ → List ℕ
without [] x = []
without (y ∷ ys) x = if y == x then ys else y ∷ without ys x

length-without :
    (xs : List ℕ) (x : ℕ) → contains xs x ≡ true → suc (length (without xs x)) ≡ length xs
length-without [] x h = absurd (ground (arith, h))
length-without (y ∷ ys) x h = ground (arith, length-without ys x)

contains-without_ne :
    (xs : List ℕ) (x y : ℕ) → y ≢ x → contains (without xs x) y ≡ false → contains xs y ≡ false
contains-without_ne [] x y h e = refl
contains-without_ne (z ∷ zs) x y h e = ground (arith, contains-without_ne zs x y h)

-- One of more different values than there are elements is no element.
pub pigeonhole :
    (f : ℕ → ℕ) (n : ℕ) (xs : List ℕ)
    → ((i j : ℕ) → i < n → j < n → f i ≡ f j → i ≡ j)
    → length xs < n
    → (i : ℕ) × (i < n) × (contains xs (f i) ≡ false)
pigeonhole f zero xs injective h = absurd (omega arith)
pigeonhole f (suc n) xs injective h = elim (Bool-cases (contains xs (f n))) [
  | inr absent ↦ (n, omega arith, absent)
  | inl present ↦
      let (i, low, e) =
        pigeonhole f n (without xs (f n)) (λ i j a b. injective i j (omega arith) (omega arith))
          (omega (arith, length-without xs (f n) present)) in
      (
        i,
        omega arith,
        contains-without_ne xs (f n) (f i)
            (λ same. omega (arith, injective i n (omega arith) (omega arith) same)) e,
      )
]

-- A new last element that the list does not contain.
contains-append : (xs : List ℕ) (x y : ℕ) → contains (xs ++ (y ∷ [])) x ≡ (contains xs x || y == x)
contains-append [] x y = ground arith
contains-append (z ∷ zs) x y = ground (arith, contains-append zs x y)

pub IsDistinct-append :
    (xs : List ℕ) (y : ℕ) → IsDistinct xs → contains xs y ≡ false → IsDistinct (xs ++ (y ∷ []))
IsDistinct-append [] y d e = (refl, tt)
IsDistinct-append (x ∷ xs) y (fresh, d) e =
    (ground (arith, contains-append xs x y), IsDistinct-append xs y d (ground arith))
