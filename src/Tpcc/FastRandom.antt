-- ===== src/Tpcc/FastRandom.antt =====
-- The members of app/tpcc/rand.hpp and app/tpcc/fastrandom.hpp that the loader does not call: seeds,
-- narrow draws, the draws that exclude a value, and the XOR-shift generators.
use doradd_storage.Base.{
  ℕ, zero, suc, ◌+◌, ◌*◌, ◌/◌, ◌%◌, ◌^◌, ◌-◌, ◌≤◌, ◌≡◌, ◌≢◌, List, [], ◌∷◌, ◌++◌, Option, none,
  some, Bool, true, if◌then◌else◌, leb, ◌==◌, ◌&&◌, arith, range_from, bit_xor,
}
use doradd_storage.Tpcc.{customers_per_district}
use doradd_storage.Tpcc.Rand.{
  Platform, Source, next, next_readable_char, next_uniform, random_number, non_uniform_random,
}

unfoldable pub set_seed : ℕ → Source → Source
set_seed seed s = record s { seed = seed }

-- The constructor and `set_seed0`: the seed is scrambled, and cut to 48 bits.
unfoldable pub set_seed0 : ℕ → Source → Source
set_seed0 seed s = record s { seed = bit_xor seed 0x5DEECE66D % 2 ^ 48 }

-- The members of Rand and the counter of GetCurrentTime before their first use.
unfoldable pub new_rand : ℕ → Source
unfolding set_seed0
new_rand calls = set_seed0 0xdeadbeef (record { seed = 0; calls = calls; tl_hack = 100_000 })

unfoldable pub next_u32 : Source → ℕ × Source
next_u32 s = let (x, s') = next 32 s in (x % 2 ^ 32, s')

unfoldable pub next_u16 : Source → ℕ × Source
next_u16 s = let (x, s') = next 16 s in (x % 2 ^ 16, s')

unfoldable pub next_char : Source → ℕ × Source
next_char s = let (x, s') = next 8 s in (x % 256, s')

-- `s[i] = draw()`, for each place of a string of `len`.
unfoldable pub fill_string : (Source → ℕ × Source) → ℕ → Source → List ℕ × Source
fill_string draw zero s = ([], s)
fill_string draw (suc len) s =
    let (c, s1) = draw s in let (cs, s2) = fill_string draw len s1 in (c ∷ cs, s2)

unfoldable pub next_string : ℕ → Source → List ℕ × Source
next_string len s = fill_string next_char len s

unfoldable pub next_readable_string : ℕ → Source → List ℕ × Source
next_readable_string len s = fill_string next_readable_char len s

-- `none` where an assertion fails.
unfoldable pub check_between_inclusive : ℕ → ℕ → ℕ → Option ℕ
check_between_inclusive v lower upper = if leb lower v && leb v upper then some v else none

-- `back()` and `pop_back()`; `none` on an empty vector, where neither may be called.
unfoldable pub pop_back : List ℕ → Option (ℕ × List ℕ)
pop_back [] = none
pop_back (x ∷ xs) = elim (pop_back xs) [
  | none ↦ some (x, [])
  | some (last, rest) ↦ some (last, x ∷ rest)
]

pub record OcIds : Type 0 where
  pub oc_init : Bool
  pub oc_id_vector : List ℕ

module _ (p : Platform) where
  -- The loop of `randomNumberExcluding`, on fuel.
  unfoldable pub random_number_excluding : ℕ → ℕ → ℕ → ℕ → Source → Option (ℕ × Source)
  random_number_excluding zero min max exclude s = none
  random_number_excluding (suc fuel) min max exclude s =
      let (ret, s') = random_number p min max s in
      let again = random_number_excluding fuel min max exclude s' in
      if ret == exclude then again else some (ret, s')

  unfoldable pub transaction_get_random_customer_id : Source → Option ℕ × Source
  transaction_get_random_customer_id s =
      let (id, s') = non_uniform_random p 1023 259 1 customers_per_district s in
      (check_between_inclusive id 1 customers_per_district, s')

  -- What the first call of `generate_random_o_c_id` sets up.
  unfoldable pub init_oc_ids : OcIds → Source → OcIds × Source
  init_oc_ids o s = if o.oc_init then (o, s) else (
    record {
      oc_init = true;
      oc_id_vector = p.shuffle s.calls (o.oc_id_vector ++ range_from 0 3000);
    },
    record s { calls = s.calls + 3000 },
  )

  unfoldable pub generate_random_o_c_id : OcIds → Source → Option (ℕ × OcIds) × Source
  generate_random_o_c_id o s =
      let (o1, s1) = init_oc_ids o s in
      (
        elim (pop_back o1.oc_id_vector) [
          | none ↦ none
          | some (ret, ids) ↦ some (ret, record o1 { oc_id_vector = ids })
        ],
        s1,
      )

-- `Next` of XORRandom<T>, the next state and the draw in one, in a `T` of `m` values.
unfoldable pub xor_next : ℕ → ℕ → ℕ
xor_next m x =
    let x1 = bit_xor x (x * 2 ^ 13 % m) in
    let x2 = bit_xor x1 (x1 / 2 ^ 7) in bit_xor x2 (x2 * 2 ^ 17 % m)

unfoldable pub next_range : ℕ → ℕ → ℕ → ℕ → ℕ
unfolding xor_next
next_range m begin end x = (xor_next m x % ((end + m - begin) % m) + begin) % m

abbrev pub xor_random_32 : ℕ
xor_random_32 = 0x25F16D1D

abbrev pub xor_random_64 : ℕ
xor_random_64 = 0x2545F4914F6CDD1D

module _ (p : Platform) where
  -- What the loop returns is in the range, and not the excluded value.
  pub random_number_excluding-other :
      (fuel min max exclude v : ℕ) (s s' : Source)
      → min ≤ max
      → random_number_excluding p fuel min max exclude s ≡ some (v, s')
      → (v ≢ exclude) × (min ≤ v) × (v ≤ max)
  unfolding random_number_excluding random_number
  random_number_excluding-other zero min max exclude v s s' le h = absurd (cc)
  random_number_excluding-other (suc fuel) min max exclude v s s' le h =
      let x = (next_uniform s).0 in
      ground (
        arith,
        random_number_excluding-other fuel min max exclude v (next_uniform s).1 s' le,
        p.uniform_lower x min max le,
        p.uniform_upper x min max le,
      )

  -- The assertion on a customer's number never fails.
  pub customer_id-check :
      (s : Source)
      → (id : ℕ) × ((transaction_get_random_customer_id p s).0 ≡ some id)
        × (1 ≤ id)
        × (id ≤ customers_per_district)
  unfolding transaction_get_random_customer_id check_between_inclusive non_uniform_random
  customer_id-check s = (
    (non_uniform_random p 1023 259 1 customers_per_district s).0,
    ground arith,
    omega arith,
    omega arith,
  )
