-- ===== src/Base/Bytes.antt =====
-- Little-endian numbers in a sequence of bytes.
use Prim.Native.Nat.{ℕ, zero, suc, ◌+◌, ◌*◌, ◌%◌, ◌/◌, ◌^◌, ◌≤◌, ◌<◌}
use mathlib.Core.Path.{◌≡◌, refl, ap, ap₂, ◌∙◌}
use mathlib.Core.List.{List, [], ◌∷◌, ◌++◌}
use native.Mathlib.Omega.{arith}
use doradd_storage.Base.Lists.{length, get_or, replicate, get_or-append_left, get_or-append_right}

-- The number of `n` bytes from `addr` on; a byte outside the sequence is 0.
abbrev pub read_le : List ℕ → ℕ → ℕ → ℕ
read_le bytes addr zero = 0
read_le bytes addr (suc n) = get_or bytes addr 0 + 256 * read_le bytes (addr + 1) n

-- `n` bytes of `v`, byte `i` first: `(v >> (i * 8)) & 0xFF`.
abbrev pub bytes_from : ℕ → ℕ → ℕ → List ℕ
bytes_from v i zero = []
bytes_from v i (suc n) = (v / 2 ^ (i * 8)) % 256 ∷ bytes_from v (i + 1) n

pub read_le-append_left :
    (xs ys : List ℕ) (addr n : ℕ)
    → addr + n ≤ length xs
    → read_le (xs ++ ys) addr n ≡ read_le xs addr n
read_le-append_left xs ys addr zero h = refl
read_le-append_left xs ys addr (suc n) h =
    ap₂ (λ b more. b + 256 * more) (get_or-append_left xs ys 0 addr (omega arith))
      (read_le-append_left xs ys (addr + 1) n (omega arith))

pub read_le-append_right :
    (xs ys : List ℕ) (addr n : ℕ) → read_le (xs ++ ys) (length xs + addr) n ≡ read_le ys addr n
read_le-append_right xs ys addr zero = refl
read_le-append_right xs ys addr (suc n) =
    let e : length xs + addr + 1 ≡ length xs + (addr + 1) = omega arith in
    ap₂ (λ b more. b + 256 * more) (get_or-append_right xs ys 0 addr)
      (ap (λ k. read_le (xs ++ ys) k n) e ∙ read_le-append_right xs ys (addr + 1) n)

pub read_le-bytes_2 :
    (v : ℕ) (rest : List ℕ) → v < 2 ^ 16 → read_le (bytes_from v 0 2 ++ rest) 0 2 ≡ v
read_le-bytes_2 v rest h = omega arith

pub read_le-bytes_4 :
    (v : ℕ) (rest : List ℕ) → v < 2 ^ 32 → read_le (bytes_from v 0 4 ++ rest) 0 4 ≡ v
read_le-bytes_4 v rest h = omega arith

get_or-zeros : (m i : ℕ) → get_or {A = ℕ} (replicate m 0) i 0 ≡ 0
get_or-zeros zero i = refl
get_or-zeros (suc m) zero = refl
get_or-zeros (suc m) (suc i) = get_or-zeros m i

pub read_le-zeros : (m addr n : ℕ) → read_le (replicate m 0) addr n ≡ 0
read_le-zeros m addr zero = refl
read_le-zeros m addr (suc n) = omega (arith, get_or-zeros m addr, read_le-zeros m (addr + 1) n)
