-- ===== src/Stages/Recording.antt =====
-- A transaction type with a record of the calls that the dispatcher makes on it.
--
-- The world of `recording t` is that of `t` with two lists beside it: the addresses of the calls of
-- `prepare_cowns`, and the address and the stamp of each call of `parse_and_process`. Each call does to the
-- world, and returns, what it does in `t`; so nothing is asked of `t`, whose processing may read the pointers
-- that its preparation has written into the log.
use mathlib.Core.List.{append_assoc, append-nil}
use doradd_storage.Base.{
  ℕ, zero, suc, ◌+◌, ◌≡◌, refl, ap, ap₂, sym, ◌∙◌, List, [], ◌∷◌, ◌++◌, arith,
}
use doradd_storage.Txn.{TxnType, Sized, entry_addr, entries, visit}
use doradd_storage.Dispatch.Replay.{Projects, execute}

pub record Recorded (W : Type 0) : Type 0 where
  pub world : W
  pub prepared : List ℕ
  pub processed : List (ℕ × ℕ)

abbrev pub recording : {W : Type 0} → TxnType W → TxnType (Recorded W)
recording t = record {
  prepare_cowns = λ a r. (
    record r { world = (t.prepare_cowns a r.world).0; prepared = r.prepared ++ (a ∷ []) },
    (t.prepare_cowns a r.world).1,
  );
  prefetch_cowns =
      λ a r. (record r { world = (t.prefetch_cowns a r.world).0 }, (t.prefetch_cowns a r.world).1);
  parse_and_process = λ a s r. (
    record r {
      world = (t.parse_and_process a s r.world).0;
      processed = r.processed ++ ((a, s) ∷ []);
    },
    (t.parse_and_process a s r.world).1,
  );
}

abbrev pub blank : {W : Type 0} → W → Recorded W
blank w = record { world = w; prepared = []; processed = [] }

abbrev pub add_call : ℕ → ℕ → List (ℕ × ℕ) → List (ℕ × ℕ)
add_call a s l = l ++ ((a, s) ∷ [])

-- The reference: one call for each of the entries, in order, the k-th of them with stamp `k`.
abbrev pub calls : (ℕ → ℕ) → ℕ → ℕ → List ℕ → ℕ → List (ℕ × ℕ)
calls stamp top size [] k = []
calls stamp top size (e ∷ es) k = (entry_addr top size e, stamp k) ∷ calls stamp top size es (k + 1)

pub recording-Sized :
    {W : Type 0} (t : TxnType W) (size : ℕ) → Sized t size → Sized (recording t) size
recording-Sized t size h = record {
  prepare_size = λ a r. h.prepare_size a r.world;
  prefetch_size = λ a r. h.prefetch_size a r.world;
  process_size = λ a s r. h.process_size a s r.world;
}

pub recording-Projects :
    {W : Type 0} (t : TxnType W) → Projects (recording t) (λ r. r.processed) add_call
recording-Projects t = record {
  prepare_quiet = λ a r. refl;
  prefetch_quiet = λ a r. refl;
  process_exec = λ a s r. refl;
}

pub execute-calls :
    (stamp : ℕ → ℕ) (top size : ℕ) (es : List ℕ) (k : ℕ) (l : List (ℕ × ℕ))
    → execute add_call stamp top size es k l ≡ l ++ calls stamp top size es k
execute-calls stamp top size [] k l = sym (append-nil l)
execute-calls stamp top size (e ∷ es) k l =
    execute-calls stamp top size es (k + 1) (add_call (entry_addr top size e) (stamp k) l)
    ∙ append_assoc l ((entry_addr top size e, stamp k) ∷ []) (calls stamp top size es (k + 1))

pub visit-prepared :
    {W : Type 0} (t : TxnType W) (l : List ℕ) (r : Recorded W)
    → (visit (recording t).prepare_cowns l r).prepared ≡ r.prepared ++ l
unfolding visit
visit-prepared t [] r = sym (append-nil r.prepared)
visit-prepared t (a ∷ l) r =
    visit-prepared t l ((recording t).prepare_cowns a r).0 ∙ append_assoc r.prepared (a ∷ []) l

pub entries-append :
    (top size i n m j k : ℕ)
    → j ≡ i + n
    → k ≡ n + m
    → entries top size i n ++ entries top size j m ≡ entries top size i k
entries-append top size i zero m j k at sum =
    let e : j ≡ i = omega (arith, at) in
    let f : m ≡ k = omega (arith, sum) in ap₂ (entries top size) e f
entries-append top size i (suc n) m j (suc k) at sum =
    ap (λ l. entry_addr top size i ∷ l)
      (entries-append top size (i + 1) n m j k (omega (arith, at)) (omega (arith, sum)))
entries-append top size i (suc n) m j zero at sum = absurd (omega (arith, sum))
