-- ===== src/Tpcc/RandTests.antt =====
-- The random sources of app/tpcc/rand.hpp and app/tpcc/fastrandom.hpp at concrete inputs.
use doradd_storage.Base.{
  ℕ, ◌≡◌, ◌≢◌, ◌≤◌, refl, [], ◌∷◌, some, true, arith, length, u32_mod, u64_mod,
}
use doradd_storage.Tpcc.{customers_per_district}
use doradd_storage.Tpcc.Rand.{Source, next}
use doradd_storage.Tpcc.FastRandom.{
  pop_back, set_seed, set_seed0, new_rand, next_u32, next_u16, next_char, fill_string, next_string,
  random_number_excluding, transaction_get_random_customer_id, init_oc_ids, generate_random_o_c_id,
  xor_next, next_range, xor_random_32, xor_random_64, random_number_excluding-other,
  customer_id-check,
}
use doradd_storage.Tpcc.Tests.{platform, source}
use doradd_storage.Tpcc.XorShift.{IsAlive, drawn, drawn-IsAlive}

drawn-IsAlive_example :
    IsAlive u32_mod (drawn u32_mod 2 xor_random_32)
    × IsAlive u64_mod (drawn u64_mod 2 xor_random_64)
drawn-IsAlive_example = drawn-IsAlive 2

-- A draw from 10 to 19 of the 32-bit generator.
range_test : next_range u32_mod 10 20 xor_random_32 ≡ 17
unfolding next_range xor_next
range_test = refl

seed_test : (new_rand 0).seed ≡ 21_479_118_978
unfolding new_rand set_seed0
seed_test = refl

-- Three characters from the seed 1.
string_test : length (next_string 3 (set_seed 1 (new_rand 0))).0 ≡ 3
unfolding next_string fill_string next_char
string_test = refl

narrow_test :
    ((next_u16 (set_seed 1 (new_rand 0))).0 ≡ 5)
    × ((next_u32 (set_seed 1 (new_rand 0))).0 ≡ 384_748)
unfolding next_u16 next_u32 next set_seed
narrow_test = (refl, refl)

-- Ids are handed out from the end of the vector.
oc_id_test :
    generate_random_o_c_id platform (record { oc_init = true; oc_id_vector = 7 ∷ 8 ∷ [] }) source
    ≡ (some (8, record { oc_init = true; oc_id_vector = 7 ∷ [] }), source)
unfolding generate_random_o_c_id init_oc_ids pop_back
oc_id_test = refl

customer_id_test :
    (id : ℕ) × ((transaction_get_random_customer_id platform source).0 ≡ some id)
    × (1 ≤ id)
    × (id ≤ customers_per_district)
customer_id_test = customer_id-check platform source

excluding_test :
    (v : ℕ) (s : Source)
    → random_number_excluding platform 5 1 10 4 source ≡ some (v, s)
    → (v ≢ 4) × (1 ≤ v) × (v ≤ 10)
excluding_test v s = random_number_excluding-other platform 5 1 10 4 v source s (omega arith)
