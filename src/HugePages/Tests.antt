-- ===== src/HugePages/Tests.antt =====
-- The theorems on huge pages at concrete inputs.
use doradd_storage.Base.{
  ℕ, zero, suc, ◌+◌, ◌-◌, ◌*◌, ◌^◌, ◌≤◌, ◌<◌, ◌≡◌, ◌≢◌, inl, refl, ap, ◌∙◌, true, false, none, some,
  arith, if◌then◌else◌, ◌==◌, ltb,
}
use doradd_storage.HugePages.{
  hpage_size, Memory, hpage_nr, alloc_sz, aligned_alloc_hpage, aligned_alloc_hpage_fd,
}
use doradd_storage.HugePages.Alloc.{Cleared, aligned_alloc_hpage-clears}
use doradd_storage.HugePages.Copy.{IsStrlen, Apart, aligned_alloc_hpage_fd-copies}

-- Two pages and a part of a third.
aligned_alloc_hpage-clears_example :
    (5_000_000 < alloc_sz 5_000_000)
    × (alloc_sz 5_000_000 ≤ 5_000_000 + hpage_size)
    × (((i : ℕ) → i < hpage_nr 5_000_000 → ltb (2 ^ 30 + i * hpage_size) (2 ^ 40) ≡ true)
        → (m' : Memory) × (aligned_alloc_hpage (λ a. ltb a (2 ^ 40)) 5_000_000 (2 ^ 30) (λ a. 7)
            ≡ some (m', 2 ^ 30))
          × Cleared (2 ^ 30) (alloc_sz 5_000_000) (λ a. 7) m')
    × ((i : ℕ)
        → i < hpage_nr 5_000_000
        → ltb (2 ^ 30 + i * hpage_size) (2 ^ 40) ≡ false
        → aligned_alloc_hpage (λ a. ltb a (2 ^ 40)) 5_000_000 (2 ^ 30) (λ a. 7) ≡ none)
aligned_alloc_hpage-clears_example =
    aligned_alloc_hpage-clears (λ a. ltb a (2 ^ 40)) 5_000_000 (2 ^ 30) (λ a. 7) (omega arith)

-- The first byte that is zero among `n`.
scan : ℕ → Memory → ℕ → ℕ
scan zero m a = 0
scan (suc n) m a = let rest = scan n m (a + 1) in if m a == 0 then 0 else suc rest

scan_lem :
    (n : ℕ) (m : Memory) (a p : ℕ)
    → p < n
    → m (a + p) ≡ 0
    → ((j : ℕ) → j < p → m (a + j) ≢ 0)
    → scan n m a ≡ p
unfolding scan
scan_lem zero m a p h end before = absurd (omega arith)
scan_lem (suc n) m a zero h end before =
    let here : m a ≡ 0 = ap m (omega arith) ∙ end in ground (arith, here)
scan_lem (suc n) m a (suc p) h end before =
    let here : m a ≢ 0 = λ e. before 0 (omega arith) (ap m (omega arith) ∙ e) in
    let later =
      scan_lem n m (a + 1) p (omega arith) (ap m (omega arith) ∙ end)
        (λ j low e. before (suc j) (omega arith) (ap m (omega arith) ∙ e)) in
    ground (arith, here, later)

abbrev strlen : Memory → ℕ → ℕ
strlen m a = scan hpage_size m a

strlen-IsStrlen : IsStrlen strlen
strlen-IsStrlen m a p h end before = scan_lem hpage_size m a p h end before

-- A file of ten bytes, mapped at 0, whose fourth byte is zero.
abbrev a_file : Memory
a_file a = if a == 3 then 0 else 5

one_page : Apart (hpage_nr 10 * hpage_size) (2 ^ 22) 0
unfolding hpage_nr
one_page = inl (omega arith)

end_of_text : a_file (0 + (hpage_nr 10 - 1) * hpage_size + 3) ≡ 0
unfolding hpage_nr
end_of_text = refl

text : (j : ℕ) → j < 3 → a_file (0 + (hpage_nr 10 - 1) * hpage_size + j) ≢ 0
unfolding hpage_nr
text j h = ground arith

aligned_alloc_hpage_fd-copies_example :
    let m' = (aligned_alloc_hpage_fd strlen 10 0 (2 ^ 22) a_file).0 in
    ((k : ℕ) → k < (hpage_nr 10 - 1) * hpage_size + 3 → m' (2 ^ 22 + k) ≡ a_file (0 + k))
    × ((k : ℕ) → (hpage_nr 10 - 1) * hpage_size + 3 ≤ k → m' (2 ^ 22 + k) ≡ a_file (2 ^ 22 + k))
aligned_alloc_hpage_fd-copies_example =
    aligned_alloc_hpage_fd-copies strlen 10 0 (2 ^ 22) 3 a_file strlen-IsStrlen one_page
      (omega arith) end_of_text text
