-- ===== src/HugePages.antt =====
-- src/doradd/hugepage.hpp: memory in huge pages. Memory is a function from addresses to bytes. The address
-- that `aligned_alloc` returns is an argument, and so is whether the page at an address is huge; the
-- program exits where a page is not, which is `none`. `madvise` changes no byte.
pub mod Alloc
pub mod Copy
mod Tests
use doradd_storage.Base.{
  ℕ, zero, suc, ◌+◌, ◌-◌, ◌*◌, ◌/◌, ◌^◌, Bool, true, false, ◌&&◌, Option, none, some, if◌then◌else◌,
  ltb, leb, mul64,
}

abbrev pub hpage_size : ℕ
hpage_size = 2 ^ 21

abbrev pub Memory : Type 0
Memory = ℕ → ℕ

abbrev pub memset : Memory → ℕ → ℕ → ℕ → Memory
memset m dst v n a = if leb dst a && ltb a (dst + n) then v else m a

abbrev pub memcpy : Memory → ℕ → ℕ → ℕ → Memory
memcpy m dst src n a = if leb dst a && ltb a (dst + n) then m (src + (a - dst)) else m a

unfoldable pub hpage_nr : ℕ → ℕ
hpage_nr sz = sz / hpage_size + 1

unfoldable pub alloc_sz : ℕ → ℕ
alloc_sz sz = mul64 (hpage_nr sz) hpage_size

-- The loop of `aligned_alloc_hpage` for `n` more pages.
unfoldable pub clear_pages : (ℕ → Bool) → ℕ → ℕ → Memory → Option Memory
clear_pages is_huge zero buf m = some m
clear_pages is_huge (suc n) buf m =
    let rest = clear_pages is_huge n (buf + hpage_size) (memset m buf 0 hpage_size) in
    if is_huge buf then rest else none

-- The memory, and the address that is returned.
unfoldable pub aligned_alloc_hpage : (ℕ → Bool) → ℕ → ℕ → Memory → Option (Memory × ℕ)
aligned_alloc_hpage is_huge sz buf m = elim (clear_pages is_huge (hpage_nr sz) buf m) [
  | none ↦ none
  | some m' ↦ some (m', buf)
]

unfoldable pub aligned_alloc_hpage_lazy : ℕ → ℕ → Memory → Memory × ℕ
aligned_alloc_hpage_lazy sz buf m = (m, buf)

-- The loop of `aligned_alloc_hpage_fd`, which copies `n` whole pages.
unfoldable pub copy_pages : ℕ → ℕ → ℕ → Memory → Memory
copy_pages zero buf src m = m
copy_pages (suc n) buf src m =
    copy_pages n (buf + hpage_size) (src + hpage_size) (memcpy m buf src hpage_size)

-- The file of `src_sz` bytes is mapped at `src`; `strlen` is the C library's.
unfoldable pub aligned_alloc_hpage_fd : (Memory → ℕ → ℕ) → ℕ → ℕ → ℕ → Memory → Memory × ℕ
aligned_alloc_hpage_fd strlen src_sz src buf m =
    let whole = (hpage_nr src_sz - 1) * hpage_size in
    let m' = copy_pages (hpage_nr src_sz - 1) buf src m in
    (memcpy m' (buf + whole) (src + whole) (strlen m' (src + whole)), buf)
