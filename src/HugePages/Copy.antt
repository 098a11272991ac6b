-- ===== src/HugePages/Copy.antt =====
-- What `aligned_alloc_hpage_fd` copies: the whole pages of the file, and the rest of it up to its first
-- byte that is zero.
use doradd_storage.Base.{
  ℕ, zero, suc, ◌+◌, ◌-◌, ◌*◌, ◌≤◌, ◌<◌, ◌≡◌, ◌≢◌, ◌⊎◌, inl, inr, refl, sym, ap, ◌∙◌, arith, dec_lt,
}
use doradd_storage.HugePages.{
  hpage_size, Memory, memcpy, hpage_nr, copy_pages, aligned_alloc_hpage_fd,
}

-- `strlen` counts the bytes before the first that is zero, at least when there are fewer than a page.
abbrev pub IsStrlen : (Memory → ℕ → ℕ) → Type 0
IsStrlen strlen =
    (m : Memory) (a p : ℕ)
    → p < hpage_size
    → m (a + p) ≡ 0
    → ((j : ℕ) → j < p → m (a + j) ≢ 0)
    → strlen m a ≡ p

-- Neither of two stretches of memory reaches into the other.
abbrev pub Apart : ℕ → ℕ → ℕ → Type 0
Apart n buf src = (src + n ≤ buf) ⊎ (buf + n ≤ src)

memcpy-outside :
    (m : Memory) (dst src n a : ℕ) → (a < dst) ⊎ (dst + n ≤ a) → memcpy m dst src n a ≡ m a
memcpy-outside m dst src n a h = ground arith

memcpy-inside : (m : Memory) (dst src n k : ℕ) → k < n → memcpy m dst src n (dst + k) ≡ m (src + k)
memcpy-inside m dst src n k h =
    let same : src + (dst + k - dst) ≡ src + k = omega arith in ground (arith, ap m same)

copy_pages-outside :
    (n buf src : ℕ) (m : Memory) (a : ℕ)
    → (a < buf) ⊎ (buf + n * hpage_size ≤ a)
    → copy_pages n buf src m a ≡ m a
unfolding copy_pages
copy_pages-outside zero buf src m a h = refl
copy_pages-outside (suc n) buf src m a h =
    copy_pages-outside n (buf + hpage_size) (src + hpage_size) (memcpy m buf src hpage_size) a
      (ground arith)
    ∙ memcpy-outside m buf src hpage_size a (ground arith)

copy_pages-inside :
    (n buf src : ℕ) (m : Memory) (k : ℕ)
    → Apart (n * hpage_size) buf src
    → k < n * hpage_size
    → copy_pages n buf src m (buf + k) ≡ m (src + k)
unfolding copy_pages
copy_pages-inside zero buf src m k apart h = absurd (omega arith)
copy_pages-inside (suc n) buf src m k apart h =
    let m1 = memcpy m buf src hpage_size in
    elim (dec_lt k hpage_size) [
      | yes first ↦
          copy_pages-outside n (buf + hpage_size) (src + hpage_size) m1 (buf + k)
            (inl (omega arith))
          ∙ memcpy-inside m buf src hpage_size k first
      | no later ↦
          let there : buf + k ≡ buf + hpage_size + (k - hpage_size) = omega arith in
          let here : src + hpage_size + (k - hpage_size) ≡ src + k = omega arith in
          ap (copy_pages n (buf + hpage_size) (src + hpage_size) m1) there
          ∙ copy_pages-inside n (buf + hpage_size) (src + hpage_size) m1 (k - hpage_size)
              (ground arith) (omega arith)
          ∙ ap m1 here
          ∙ memcpy-outside m buf src hpage_size (src + k) (ground arith)
    ]

-- The whole pages, and then the first `p` bytes behind them.
module _ (strlen : Memory → ℕ → ℕ) (n src buf p : ℕ) (m : Memory) (is_strlen : IsStrlen strlen)
    (apart : Apart (n * hpage_size + hpage_size) buf src) (near : p < hpage_size)
    (end : m (src + n * hpage_size + p) ≡ 0)
    (before : (j : ℕ) → j < p → m (src + n * hpage_size + j) ≢ 0) where
  copied : Memory
  copied = copy_pages n buf src m

  result : Memory
  result =
      memcpy copied (buf + n * hpage_size) (src + n * hpage_size)
        (strlen copied (src + n * hpage_size))

  source-kept :
      (k : ℕ) → k < hpage_size → copied (src + n * hpage_size + k) ≡ m (src + n * hpage_size + k)
  unfolding copied
  source-kept k h = copy_pages-outside n buf src m (src + n * hpage_size + k) (ground arith)

  measured : strlen copied (src + n * hpage_size) ≡ p
  measured =
      is_strlen copied (src + n * hpage_size) p near (source-kept p near ∙ end)
        (λ j h e. before j h (sym (source-kept j (omega arith)) ∙ e))

  result-copied : (k : ℕ) → k < n * hpage_size + p → result (buf + k) ≡ m (src + k)
  unfolding result copied
  result-copied k h = elim (dec_lt k (n * hpage_size)) [
    | yes whole ↦
        memcpy-outside copied (buf + n * hpage_size) (src + n * hpage_size)
          (strlen copied (src + n * hpage_size)) (buf + k) (inl (omega arith))
        ∙ copy_pages-inside n buf src m k (ground arith) whole
    | no behind ↦
        let j = k - n * hpage_size in
        let there : buf + k ≡ buf + n * hpage_size + j = omega arith in
        let here : src + n * hpage_size + j ≡ src + k = omega arith in
        ap result there
        ∙ memcpy-inside copied (buf + n * hpage_size) (src + n * hpage_size)
            (strlen copied (src + n * hpage_size)) j (omega (arith, measured))
        ∙ source-kept j (omega arith)
        ∙ ap m here
  ]

  result-kept : (k : ℕ) → n * hpage_size + p ≤ k → result (buf + k) ≡ m (buf + k)
  unfolding result copied
  result-kept k h =
      memcpy-outside copied (buf + n * hpage_size) (src + n * hpage_size)
        (strlen copied (src + n * hpage_size)) (buf + k) (inr (omega (arith, measured)))
      ∙ copy_pages-outside n buf src m (buf + k) (inr (omega arith))

hpage_nr_pos : (sz : ℕ) → 0 < hpage_nr sz
unfolding hpage_nr
hpage_nr_pos sz = omega arith

-- Where the file and the allocation do not overlap, and the first zero byte behind the file's whole pages
-- is their byte p: the bytes before it are copied, and no byte of the allocation from there on is
-- written, whatever is left of the file.
pub aligned_alloc_hpage_fd-copies :
    (strlen : Memory → ℕ → ℕ) (src_sz src buf p : ℕ) (m : Memory)
    → IsStrlen strlen
    → Apart (hpage_nr src_sz * hpage_size) buf src
    → p < hpage_size
    → m (src + (hpage_nr src_sz - 1) * hpage_size + p) ≡ 0
    → ((j : ℕ) → j < p → m (src + (hpage_nr src_sz - 1) * hpage_size + j) ≢ 0)
    → let m' = (aligned_alloc_hpage_fd strlen src_sz src buf m).0 in
      ((k : ℕ) → k < (hpage_nr src_sz - 1) * hpage_size + p → m' (buf + k) ≡ m (src + k))
      × ((k : ℕ) → (hpage_nr src_sz - 1) * hpage_size + p ≤ k → m' (buf + k) ≡ m (buf + k))
unfolding aligned_alloc_hpage_fd result copied
aligned_alloc_hpage_fd-copies strlen src_sz src buf p m is_strlen apart near end before =
    let n = hpage_nr src_sz - 1 in
    let some_page = hpage_nr_pos src_sz in
    let apart' : Apart (n * hpage_size + hpage_size) buf src = ground (arith, some_page) in
    (
      result-copied strlen n src buf p m is_strlen apart' near end before,
      result-kept strlen n src buf p m is_strlen apart' near end before,
    )
