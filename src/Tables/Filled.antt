-- ===== src/Tables/Filled.antt =====
-- Tables that are filled from the front, and loops over ids.
use doradd_storage.Base.{
  ℕ, zero, suc, ◌+◌, ◌*◌, ◌≤◌, ◌<◌, ◌≡◌, refl, ◌∙◌, Option, none, some, length, arith, dec_lt,
  subst, length-set, length-replicate, get_or-set_self, get_or-set_ne,
}
use doradd_storage.Tables.{
  Table, Cown, get_row, base_addr, new, put, insert_row-room, for_ids, place,
}

-- The first `cnt` slots of a table hold the cowns at the first places of the array.
pub record IsFilled {T : Type 0} (db_size array stride : ℕ) (t : Table T) : Type 0 where
  pub whole : length t.map ≡ db_size
  pub placed : (key : ℕ) → key < t.cnt → base_addr (get_row t key) ≡ array + stride * key

-- A table that is not full takes the row.
pub place-put :
    {T : Type 0} (db_size array stride key : ℕ) (row : T) (t : Table T)
    → t.cnt < db_size
    → place db_size array stride key row t
      ≡ some (put key (record { placed = some (array + stride * key); content = row }) t)
unfolding place
place-put db_size array stride key row t room =
    let r : Cown _ = record { placed = some (array + stride * key); content = row } in
    rw (insert_row-room db_size key r t room, place) refl

pub place-IsFilled :
    {T : Type 0} (db_size array stride key : ℕ) (row : T) (t : Table T)
    → IsFilled db_size array stride t
    → t.cnt ≡ key
    → key < db_size
    → (t' : Table T) × (place db_size array stride key row t ≡ some t')
      × (t'.cnt ≡ key + 1)
      × IsFilled db_size array stride t'
unfolding get_row base_addr
place-IsFilled db_size array stride key row t fill e room =
    let r : Cown _ = record { placed = some (array + stride * key); content = row } in
    (
      put key r t,
      place-put db_size array stride key row t (omega arith),
      omega arith,
      record {
        whole = length-set t.map key (some r) ∙ fill.whole;
        placed = λ k h. elim (dec_lt k key) [
          | yes p ↦
              rw (get_or-set_ne t.map key k (some r) none (omega arith))
                (fill.placed k (omega arith))
          | no p ↦
              let last : k ≡ key = omega arith in
              rw (last, get_or-set_self t.map key (some r) none (omega (arith, fill.whole))) refl
        ];
      },
    )

-- A loop keeps an invariant of the next id and the state, if each turn does, and throws nothing.
pub for_ids-invariant :
    {S : Type 0} (body : ℕ → S → Option S) (Inv : ℕ → S → Type 0) (from n : ℕ)
    → ((i : ℕ) (s : S)
        → from ≤ i
        → i < from + n
        → Inv i s
        → (s' : S) × (body i s ≡ some s') × Inv (i + 1) s')
    → (s : S) → Inv from s
    → (s' : S) × (for_ids body from n s ≡ some s') × Inv (from + n) s'
unfolding for_ids
for_ids-invariant body Inv from zero turn s inv = (s, refl, subst (λ i. Inv i s) (omega arith) inv)
for_ids-invariant body Inv from (suc n) turn s inv =
    let (s', done, inv') = turn from s (omega arith) (omega arith) inv in
    let (s'', done', inv'') =
      for_ids-invariant body Inv (from + 1) n
        (λ i s0 low high. turn i s0 (omega arith) (omega arith)) s' inv' in
    (s'', rw (done, for_ids) done', subst (λ i. Inv i s'') (omega arith) inv'')

pub new-IsFilled :
    {T : Type 0} (db_size array stride : ℕ) → IsFilled db_size array stride (new {T = T} db_size)
unfolding new
new-IsFilled db_size array stride = record {
  whole = length-replicate db_size none;
  placed = λ key h. absurd (omega arith);
}

pub new-empty :
    (T : Type 0) (db_size : ℕ)
    → ((new {T = T} db_size).cnt ≡ 0) × (length (new {T = T} db_size).map ≡ db_size)
unfolding new
new-empty T db_size = (refl, length-replicate db_size none)
