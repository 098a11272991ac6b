-- ===== src/Txn/Pointers.antt =====
-- The loops by which `prepare_cowns` of app/tpcc.cc and app/chain.cc write pointers into the log.
use doradd_storage.Base.{
  ℕ, zero, suc, ◌+◌, ◌≤◌, ◌<◌, ◌≡◌, ◌⊎◌, inl, refl, ◌∙◌, List, arith, length, get_or, set, dec_lt,
  length-set, get_or-set_self, get_or-set_ne,
}

-- `for (int i = 0; i < n; i++) cown_ptrs[first + i] = ...`, from `i` on for `n` turns. The loop does not
-- test that `first + i` is an entry of the array: a write outside the array is none here.
unfoldable pub fill_ptrs : (ℕ → ℕ) → ℕ → ℕ → ℕ → List ℕ → List ℕ
fill_ptrs addr first i zero ptrs = ptrs
fill_ptrs addr first i (suc n) ptrs = fill_ptrs addr first (i + 1) n (set ptrs (first + i) (addr i))

pub length-fill_ptrs :
    (addr : ℕ → ℕ) (first i n : ℕ) (ptrs : List ℕ)
    → length (fill_ptrs addr first i n ptrs) ≡ length ptrs
unfolding fill_ptrs
length-fill_ptrs addr first i zero ptrs = refl
length-fill_ptrs addr first i (suc n) ptrs =
    length-fill_ptrs addr first (i + 1) n (set ptrs (first + i) (addr i))
    ∙ length-set ptrs (first + i) (addr i)

-- Outside the loop's part of the array nothing changes.
pub fill_ptrs-outside :
    (addr : ℕ → ℕ) (first i n : ℕ) (ptrs : List ℕ) (j : ℕ)
    → (j < first + i) ⊎ (first + i + n ≤ j)
    → get_or (fill_ptrs addr first i n ptrs) j 0 ≡ get_or ptrs j 0
unfolding fill_ptrs
fill_ptrs-outside addr first i zero ptrs j h = refl
fill_ptrs-outside addr first i (suc n) ptrs j h =
    fill_ptrs-outside addr first (i + 1) n (set ptrs (first + i) (addr i)) j (ground arith)
    ∙ get_or-set_ne ptrs (first + i) j (addr i) 0 (omega arith)

pub fill_ptrs-inside :
    (addr : ℕ → ℕ) (first i n : ℕ) (ptrs : List ℕ) (k : ℕ)
    → i ≤ k
    → k < i + n
    → first + i + n ≤ length ptrs
    → get_or (fill_ptrs addr first i n ptrs) (first + k) 0 ≡ addr k
unfolding fill_ptrs
fill_ptrs-inside addr first i zero ptrs k low high room = absurd (omega arith)
fill_ptrs-inside addr first i (suc n) ptrs k low high room =
    let ptrs' = set ptrs (first + i) (addr i) in
    elim (dec_lt i k) [
      | yes later ↦
          fill_ptrs-inside addr first (i + 1) n ptrs' k (omega arith) (omega arith)
            (omega (arith, length-set ptrs (first + i) (addr i)))
      | no here ↦
          let e : k ≡ i = omega arith in
          rw e (
            fill_ptrs-outside addr first (i + 1) n ptrs' (first + i) (inl (omega arith))
            ∙ get_or-set_self ptrs (first + i) (addr i) 0 (omega arith))
    ]
