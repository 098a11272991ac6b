-- ===== src/PipeProfile/Progress.antt =====
-- The chain of cores of app/pipeline-profile does not block: it goes on until all cores have terminated.
use doradd_storage.Base.{
  ℕ, zero, suc, ◌+◌, ◌-◌, ◌*◌, ◌≤◌, ◌≡◌, ◌⊎◌, inl, inr, refl, subst, true, some, arith, dec_lt,
}
use doradd_storage.PipeProfile.{
  batch_sz, termination_count, Memory, System, start, terminate, has_room, advance, round,
}
use doradd_storage.PipeProfile.Rounds.{
  processed, all_processed, IsChain, round-some, round_lem, can_go_on, ahead, advance-IsChain,
  all_processed-advance,
}

module _ (process : ℕ → Memory → Memory × ℕ) (last : ℕ) where
  -- A run of the chain, by the cores that take a round.
  pub data Run (s : System) : ℕ → System → Type 0 where
    begin : Run s 0 s
    next :
        {n k : ℕ} {u v : System}
        → Run s n u
        → k ≤ last
        → round process last k u ≡ some v
        → Run s (suc n) v

  room_of_last : (s : System) → has_room last last s ≡ true
  unfolding has_room
  room_of_last s = ground arith

  terminated :
      (k : ℕ) (s : System) → termination_count ≤ processed s k → terminate (s.cores k) ≡ true
  unfolding terminate
  terminated k s h = ground (arith, h)

  start-IsChain : (read_top read_cnt : ℕ) (m : Memory) → IsChain last (start read_top read_cnt m)
  start-IsChain read_top read_cnt m = record {
    between = λ k h. refl;
    bounded = λ k h. omega arith;
    whole = λ k. (0, refl, omega arith);
  }

  all_processed-start :
      (read_top read_cnt : ℕ) (m : Memory) (n : ℕ) → all_processed (start read_top read_cnt m) n ≡ 0
  unfolding all_processed
  all_processed-start read_top read_cnt m zero = refl
  all_processed-start read_top read_cnt m (suc n) =
      omega (arith, all_processed-start read_top read_cnt m n)

  all_processed-bounded :
      (n : ℕ) (s : System) → IsChain last s → all_processed s n ≤ termination_count * (n + 1)
  unfolding all_processed
  all_processed-bounded zero s c = let (b, e, few) = c.whole 0 in omega (arith, e, few)
  all_processed-bounded (suc n) s c =
      let (b, e, few) = c.whole (suc n) in omega (arith, e, few, all_processed-bounded n s c)

  Run-IsChain :
      (read_top read_cnt : ℕ) (m : Memory) (n : ℕ) (s : System)
      → Run (start read_top read_cnt m) n s
      → IsChain last s × (all_processed s last ≡ batch_sz * n)
  Run-IsChain read_top read_cnt m n s Run.begin =
      (start-IsChain read_top read_cnt m, all_processed-start read_top read_cnt m last)
  Run-IsChain read_top read_cnt m n s (Run.next {n = n'} {k} {u} run low e) =
      let (c, sum) = Run-IsChain read_top read_cnt m n' u run in
      let (ready, same) = round_lem process last k u s e in
      subst (λ v. IsChain last v × (all_processed v last ≡ batch_sz * suc n')) same
        (
          advance-IsChain process last k u c ready,
          ground (arith, all_processed-advance process last last k u, sum),
        )

  -- However the cores take their rounds, there are at most 5,000,000 times as many as
  -- there are cores; and as long as not
  -- all cores have terminated, some core can take a round: the chain never blocks, and a run of it that
  -- goes on while it can ends with all cores terminated.
  pub Run-progress :
      (read_top read_cnt : ℕ) (m : Memory) (n : ℕ) (s : System)
      → Run (start read_top read_cnt m) n s
      → (n ≤ 5_000_000 * (last + 1))
        × (((k : ℕ) → k ≤ last → terminate (s.cores k) ≡ true)
            ⊎ ((k : ℕ) × (k ≤ last) × (s' : System) × (round process last k s ≡ some s')))
  Run-progress read_top read_cnt m n s run =
      let (c, sum) = Run-IsChain read_top read_cnt m n s run in
      (
        omega (arith, sum, all_processed-bounded last s c),
        (elim (dec_lt (processed s last) termination_count) [
          | yes more ↦
              let (k, low, ready) =
                can_go_on process last last s c (omega arith) more (room_of_last s) in
              inr (k, low, advance process last k s, round-some process last k s ready)
          | no done ↦ inl (λ k low.
              terminated k s
                (omega (arith, done, ahead process last (last - k) k s c (omega arith))))
        ]),
      )
