-- ===== src/Txn.antt =====
-- The template parameter `T` of src/doradd/dispatcher.hpp: what the dispatchers call on a
-- transaction type, and the loop over consecutive log entries that they share.
--
-- A `char*` into the log is a number. The type of worlds `W` holds whatever the calls read and
-- write. Addresses are taken not to wrap.
pub mod Pointers
use doradd_storage.Base.{
  ℕ, zero, suc, ◌+◌, ◌*◌, ◌≡◌, List, [], ◌∷◌, map, arith, ap, ◌∙◌, range_from,
}

-- The static members of `T` that the dispatchers call, in the build with RPC_LATENCY.
pub record TxnType (W : Type 0) : Type 0 where
  pub prepare_cowns : ℕ → W → W × ℕ
  pub prefetch_cowns : ℕ → W → W × ℕ
  pub parse_and_process : ℕ → ℕ → W → W × ℕ

-- Every call returns the size of a marshalled transaction.
pub record Sized {W : Type 0} (t : TxnType W) (size : ℕ) : Type 0 where
  pub prepare_size : (a : ℕ) (w : W) → (t.prepare_cowns a w).1 ≡ size
  pub prefetch_size : (a : ℕ) (w : W) → (t.prefetch_cowns a w).1 ≡ size
  pub process_size : (a s : ℕ) (w : W) → (t.parse_and_process a s w).1 ≡ size

-- The address of entry `i` of a log that begins at `top`.
abbrev pub entry_addr : ℕ → ℕ → ℕ → ℕ
entry_addr top size i = top + size * i

module _ {W : Type 0} where
  -- for (i = 0; i < n; i++) { ret = op(head); head += ret; }
  unfoldable pub walk : (ℕ → W → W × ℕ) → ℕ → ℕ → W → W × ℕ
  walk op zero head w = (w, head)
  walk op (suc n) head w = let (w', ret) = op head w in walk op n (head + ret) w'

  -- The effect of `op` at each address of a list, in order.
  unfoldable pub visit : (ℕ → W → W × ℕ) → List ℕ → W → W
  visit op [] w = w
  visit op (a ∷ as_) w = visit op as_ (op a w).0

-- The addresses of the entries `start` to `start + n - 1`.
abbrev pub entries : ℕ → ℕ → ℕ → ℕ → List ℕ
entries top size start n = map (entry_addr top size) (range_from start n)

-- The loop visits consecutive entries and leaves the pointer behind the last one.
pub walk-entries :
    {W : Type 0} (op : ℕ → W → W × ℕ) (size : ℕ)
    → ((a : ℕ) (w : W) → (op a w).1 ≡ size)
    → (top n i head : ℕ) (w : W) → head ≡ entry_addr top size i
    → walk op n head w ≡ (visit op (entries top size i n) w, entry_addr top size (i + n))
unfolding walk visit
walk-entries op size sized top zero i head w e =
    ap (λ h. (w, h)) (let p : head ≡ entry_addr top size (i + 0) = omega arith in p)
walk-entries op size sized top (suc n) i head w e =
    let next : entry_addr top size i + (op (entry_addr top size i) w).1
        ≡ entry_addr top size (i + 1) =
      omega (arith, sized (entry_addr top size i) w) in
    let end : entry_addr top size (i + 1 + n) ≡ entry_addr top size (i + suc n) = omega arith in
    rw e (
      walk-entries op size sized top n (i + 1) _ _ next
      ∙ ap (λ h. (visit op (entries top size (i + 1) n) (op (entry_addr top size i) w).0, h)) end)
