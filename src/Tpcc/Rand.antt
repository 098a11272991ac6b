-- ===== src/Tpcc/Rand.antt =====
-- app/tpcc/rand.hpp and FastRandom of app/tpcc/fastrandom.hpp, as far as the loader uses them.
--
-- `a + b` with a draw on either side takes the left one first; C++ leaves the order open.
use doradd_storage.Base.{
  ℕ, zero, suc, ◌+◌, ◌-◌, ◌/◌, ◌%◌, ◌^◌, ◌≤◌, ◌<◌, ◌≡◌, refl, ap, List, [], ◌∷◌, ◌++◌, arith,
  length, get_or, range_from, All, add64, mul64,
}

-- What the code takes from the C++ library and the compiler.
pub record Platform : Type 0 where
  -- `(int)(x / (double)(1L << 53) * (max - min + 1) + min)`, for `x`, `min` and `max`
  pub uniform : ℕ → ℕ → ℕ → ℕ
  pub uniform_lower : (x min max : ℕ) → min ≤ max → min ≤ uniform x min max
  pub uniform_upper : (x min max : ℕ) → min ≤ max → uniform x min max ≤ max
  -- The result of the k-th call of `rand()`.
  pub rand : ℕ → ℕ
  -- `std::random_shuffle` from the k-th call of `rand()` on; it makes as many as the list is long.
  pub shuffle : ℕ → List ℕ → List ℕ
  -- `x | y`
  pub bit_or : ℕ → ℕ → ℕ
  -- The bytes that `memcpy` of a given size takes from `c_str()` of a string: what follows a shorter
  -- string in memory is the platform's.
  pub memcpy : ℕ → List ℕ → List ℕ

-- The seed of FastRandom, the calls of `rand()` so far, and the counter of GetCurrentTime.
pub record Source : Type 0 where
  pub seed : ℕ
  pub calls : ℕ
  pub tl_hack : ℕ

-- FastRandom::next(bits)
unfoldable pub next : ℕ → Source → ℕ × Source
next bits s =
    let seed = add64 (mul64 s.seed 0x5DEECE66D) 0xB % 2 ^ 48 in
    (seed / 2 ^ (48 - bits), record s { seed = seed })

-- FastRandom::next()
unfoldable pub next_long : Source → ℕ × Source
next_long s =
    let (high, s1) = next 32 s in
    let (low, s2) = next 32 s1 in (add64 (mul64 high (2 ^ 32)) low, s2)

-- The numerator of FastRandom::next_uniform.
unfoldable pub next_uniform : Source → ℕ × Source
next_uniform s =
    let (high, s1) = next 26 s in
    let (low, s2) = next 27 s1 in (add64 (mul64 high (2 ^ 27)) low, s2)

-- "0123456789@ABCDEFGHIJKLMNOPQRSTUVWXYZ_abcdefghijklmnopqrstuvwxyz"
abbrev pub readables : List ℕ
readables = range_from 48 10 ++ 64 ∷ range_from 65 26 ++ 95 ∷ range_from 97 26

unfoldable pub next_readable_char : Source → ℕ × Source
next_readable_char s = let (i, s') = next 6 s in (get_or readables i 0, s')

unfoldable pub generate_random_string : ℕ → Source → List ℕ × Source
generate_random_string zero s = ([], s)
generate_random_string (suc n) s =
    let (c, s1) = next_readable_char s in let (cs, s2) = generate_random_string n s1 in (c ∷ cs, s2)

-- `'0' + r.next() % 10`, `len` times
unfoldable pub random_n_str : ℕ → Source → List ℕ × Source
random_n_str zero s = ([], s)
random_n_str (suc n) s =
    let (x, s1) = next_long s in let (cs, s2) = random_n_str n s1 in ((48 + x % 10) ∷ cs, s2)

unfoldable pub get_current_time : Source → ℕ × Source
get_current_time s = let now = (s.tl_hack + 1) % 2 ^ 32 in (now, record s { tl_hack = now })

abbrev syllables : List (List ℕ)
syllables =
    (66 ∷ 65 ∷ 82 ∷ [])
    ∷ (79 ∷ 85 ∷ 71 ∷ 72 ∷ 84 ∷ [])
    ∷ (65 ∷ 66 ∷ 76 ∷ 69 ∷ [])
    ∷ (80 ∷ 82 ∷ 73 ∷ [])
    ∷ (80 ∷ 82 ∷ 69 ∷ 83 ∷ [])
    ∷ (69 ∷ 83 ∷ 69 ∷ [])
    ∷ (65 ∷ 78 ∷ 84 ∷ 73 ∷ [])
    ∷ (67 ∷ 65 ∷ 76 ∷ 76 ∷ 89 ∷ [])
    ∷ (65 ∷ 84 ∷ 73 ∷ 79 ∷ 78 ∷ [])
    ∷ (69 ∷ 73 ∷ 78 ∷ 71 ∷ [])
    ∷ []

unfoldable pub get_customer_last_name : ℕ → List ℕ
get_customer_last_name num =
    get_or syllables (num / 100) []
    ++ get_or syllables ((num / 10) % 10) []
    ++ get_or syllables (num % 10) []

module _ (p : Platform) where
  -- The assertions of checkBetweenInclusive are the bounds of `uniform`.
  unfoldable pub random_number : ℕ → ℕ → Source → ℕ × Source
  random_number min max s = let (x, s') = next_uniform s in (p.uniform x min max, s')

  unfoldable pub non_uniform_random : ℕ → ℕ → ℕ → ℕ → Source → ℕ × Source
  non_uniform_random a c min max s =
      let (x, s1) = random_number 0 a s in
      let (y, s2) = random_number min max s1 in ((p.bit_or x y + c) % (max - min + 1) + min, s2)

  -- `rand()`
  unfoldable pub rand : Source → ℕ × Source
  rand s = (p.rand s.calls, record s { calls = s.calls + 1 })

  unfoldable pub make_permutation : ℕ → ℕ → Source → List ℕ × Source
  make_permutation min max s =
      let ids = range_from min (max + 1 - min) in
      (p.shuffle s.calls ids, record s { calls = s.calls + length ids })

  -- A field of `size` bytes from generateRandomString(length).
  unfoldable pub string_field : ℕ → ℕ → Source → List ℕ × Source
  string_field size len s = let (cs, s') = generate_random_string len s in (p.memcpy size cs, s')

  -- A field of `size` bytes from generateRandomString(min_chars, max_chars).
  unfoldable pub text_field : ℕ → ℕ → ℕ → Source → List ℕ × Source
  text_field size min_chars max_chars s =
      let (len, s') = random_number min_chars max_chars s in string_field size len s'

  unfoldable pub digits_field : ℕ → ℕ → Source → List ℕ × Source
  digits_field size len s = let (cs, s') = random_n_str len s in (p.memcpy size cs, s')

  -- getNonUniformCustomerLastNameLoad
  unfoldable pub load_last_name : Source → List ℕ × Source
  load_last_name s =
      let (num, s') = non_uniform_random 255 157 0 999 s in (get_customer_last_name num, s')

next-bound_six : (s : Source) → (next 6 s).0 < 64
unfolding next
next-bound_six s = omega arith

-- A random string has the length that is asked for, and each character is one of the readable ones.
pub generate_random_string-readable :
    (n : ℕ) (s : Source)
    → (length (generate_random_string n s).0 ≡ n)
      × All (λ c. (i : ℕ) × (i < 64) × (c ≡ get_or readables i 0)) (generate_random_string n s).0
unfolding generate_random_string next_readable_char
generate_random_string-readable zero s = (refl, tt)
generate_random_string-readable (suc n) s =
    let (len, readable) = generate_random_string-readable n (next 6 s).1 in
    (ap suc len, (((next 6 s).0, next-bound_six s, refl), readable))
