-- ===== src/HugePages/Alloc.antt =====
-- What `aligned_alloc_hpage` returns.
use doradd_storage.Base.{
  ℕ, zero, suc, ◌+◌, ◌*◌, ◌≤◌, ◌<◌, ◌≡◌, ◌⊎◌, inl, refl, sym, ap, subst, ◌∙◌, Bool, true, false,
  none, some, arith, u64_mod, dec_lt,
}
use doradd_storage.HugePages.{
  hpage_size, Memory, memset, hpage_nr, alloc_sz, clear_pages, aligned_alloc_hpage,
}

-- The memory with `n` bytes from `buf` on cleared.
abbrev pub Cleared : ℕ → ℕ → Memory → Memory → Type 0
Cleared buf n m m' =
    ((a : ℕ) → buf ≤ a → a < buf + n → m' a ≡ 0)
    × ((a : ℕ) → (a < buf) ⊎ (buf + n ≤ a) → m' a ≡ m a)

memset-outside : (m : Memory) (dst v n a : ℕ) → (a < dst) ⊎ (dst + n ≤ a) → memset m dst v n a ≡ m a
memset-outside m dst v n a h = ground arith

memset-inside : (m : Memory) (dst v n a : ℕ) → dst ≤ a → a < dst + n → memset m dst v n a ≡ v
memset-inside m dst v n a low high = ground arith

clear_pages-some :
    (is_huge : ℕ → Bool) (n buf : ℕ) (m : Memory)
    → ((i : ℕ) → i < n → is_huge (buf + i * hpage_size) ≡ true)
    → (m' : Memory) × (clear_pages is_huge n buf m ≡ some m') × Cleared buf (n * hpage_size) m m'
unfolding clear_pages
clear_pages-some is_huge zero buf m huge =
    (m, refl, ((λ a low high. absurd (omega arith)), (λ a out. refl)))
clear_pages-some is_huge (suc n) buf m huge =
    let m1 = memset m buf 0 hpage_size in
    let first : is_huge buf ≡ true = ap is_huge (omega arith) ∙ huge 0 (omega arith) in
    let (m', e, (inside, outside)) =
      clear_pages-some is_huge n (buf + hpage_size) m1
        (λ i h. ap is_huge (omega arith) ∙ huge (suc i) (omega arith)) in
    let page = buf + hpage_size in
    (
      m',
      rw (first, clear_pages) e,
      (
        (λ a low high. elim (dec_lt a page) [
          | yes p ↦ outside a (inl p) ∙ memset-inside m buf 0 hpage_size a low p
          | no p ↦ inside a (omega arith) (omega arith)
        ]),
        (λ a out. outside a (ground arith) ∙ memset-outside m buf 0 hpage_size a (ground arith)),
      ),
    )

clear_pages-none :
    (is_huge : ℕ → Bool) (n buf i : ℕ) (m : Memory)
    → i < n
    → is_huge (buf + i * hpage_size) ≡ false
    → clear_pages is_huge n buf m ≡ none
unfolding clear_pages
clear_pages-none is_huge zero buf i m h small = absurd (omega arith)
clear_pages-none is_huge (suc n) buf zero m h small =
    let first : is_huge buf ≡ false = ap is_huge (omega arith) ∙ small in
    rw (first, clear_pages) refl
clear_pages-none is_huge (suc n) buf (suc i) m h small =
    let rest =
      clear_pages-none is_huge n (buf + hpage_size) i (memset m buf 0 hpage_size) (omega arith)
        (ap is_huge (omega arith) ∙ small) in
    ground (arith, rest)

alloc_sz_lem :
    (sz : ℕ)
    → sz + hpage_size < u64_mod
    → (sz < alloc_sz sz)
      × (alloc_sz sz ≤ sz + hpage_size)
      × (alloc_sz sz ≡ hpage_nr sz * hpage_size)
unfolding alloc_sz hpage_nr
alloc_sz_lem sz small = (omega arith, omega arith, omega arith)

-- On a size below 2 ^ 64 less a huge page, the allocation is more than the size, by at most a huge page.
-- If each of its pages is huge, the call returns it, all of it cleared, and no other byte is changed;
-- and if some page is not huge, the program exits.
pub aligned_alloc_hpage-clears :
    (is_huge : ℕ → Bool) (sz buf : ℕ) (m : Memory)
    → sz + hpage_size < u64_mod
    → (sz < alloc_sz sz)
      × (alloc_sz sz ≤ sz + hpage_size)
      × (((i : ℕ) → i < hpage_nr sz → is_huge (buf + i * hpage_size) ≡ true)
          → (m' : Memory) × (aligned_alloc_hpage is_huge sz buf m ≡ some (m', buf))
            × Cleared buf (alloc_sz sz) m m')
      × ((i : ℕ)
          → i < hpage_nr sz
          → is_huge (buf + i * hpage_size) ≡ false
          → aligned_alloc_hpage is_huge sz buf m ≡ none)
unfolding aligned_alloc_hpage
aligned_alloc_hpage-clears is_huge sz buf m small =
    let (more, not_much, whole) = alloc_sz_lem sz small in
    (
      more,
      not_much,
      (λ huge.
          let (m', e, cleared) = clear_pages-some is_huge (hpage_nr sz) buf m huge in
          (
            m',
            rw (e, aligned_alloc_hpage) refl,
            subst (λ n. Cleared buf n m m') (sym whole) cleared,
          )),
      (λ i h not_huge.
          rw (clear_pages-none is_huge (hpage_nr sz) buf i m h not_huge, aligned_alloc_hpage) refl),
    )
