-- ===== src/PipeProfile/Rounds.antt =====
-- What a round of one core does to the chain of cores of app/pipeline-profile.
use doradd_storage.Base.{
  ℕ, zero, suc, ◌+◌, ◌-◌, ◌*◌, ◌≤◌, ◌<◌, ◌≡◌, refl, ap, ◌∙◌, true, ◌&&◌, some, if◌then◌else◌, ltb,
  leb, ◌==◌, arith, dec_lt, ℕ_discrete, ltb→lt,
}
use doradd_storage.PipeProfile.{
  buf_sz, batch_sz, termination_count, Memory, Worker, System, rewind, terminate, has_input,
  has_room, pass_on, dispatch_loop, dispatch_batch, advance, round,
}

abbrev pub processed : System → ℕ → ℕ
processed s k = (s.cores k).processed_cnt

-- The processed transactions of the cores up to `n`.
unfoldable pub all_processed : System → ℕ → ℕ
all_processed s zero = processed s 0
all_processed s (suc n) = all_processed s n + processed s (suc n)

-- What a core has processed and its successor has not is in the ring between them.
pub record IsChain (last : ℕ) (s : System) : Type 0 where
  pub between : (k : ℕ) → k < last → processed s k ≡ processed s (k + 1) + batch_sz * s.rings k
  pub bounded : (k : ℕ) → k < last → s.rings k ≤ buf_sz
  pub whole : (k : ℕ) → (b : ℕ) × (processed s k ≡ batch_sz * b) × (b ≤ 5_000_000)

rewind-processed_cnt : (x : Worker) → (rewind x).processed_cnt ≡ x.processed_cnt
unfolding rewind
rewind-processed_cnt x = ground arith

module _ (process : ℕ → Memory → Memory × ℕ) (last : ℕ) where
  dispatch_loop-processed_cnt :
      (n : ℕ) (x : Worker) (m : Memory)
      → (dispatch_loop process n x m).0.processed_cnt ≡ x.processed_cnt
  unfolding dispatch_loop
  dispatch_loop-processed_cnt zero x m = refl
  dispatch_loop-processed_cnt (suc n) x m =
      dispatch_loop-processed_cnt n _ (process x.read_head m).0

  dispatch_batch-processed_cnt :
      (x : Worker) (m : Memory)
      → (dispatch_batch process x m).0.processed_cnt ≡ x.processed_cnt + batch_sz
  unfolding dispatch_batch
  dispatch_batch-processed_cnt x m =
      ap (λ n. n + batch_sz)
        (dispatch_loop-processed_cnt batch_sz (rewind x) m ∙ rewind-processed_cnt x)

  advance-processed :
      (k j : ℕ) (s : System)
      → processed (advance process last k s) j
        ≡ (if j == k then processed s j + batch_sz else processed s j)
  unfolding advance
  advance-processed k j s = ground (arith, dispatch_batch-processed_cnt (s.cores k) s.memory)

  -- What a round needs and does.
  abbrev pub Ready : ℕ → System → Type 0
  Ready k s =
      (processed s k < termination_count) × (has_input k s ≡ true) × (has_room last k s ≡ true)

  pub round-some :
      (k : ℕ) (s : System) → Ready k s → round process last k s ≡ some (advance process last k s)
  unfolding round terminate
  round-some k s (more, input, room) = ground (arith, more, input, room)

  pub round_lem :
      (k : ℕ) (s s' : System)
      → round process last k s ≡ some s'
      → Ready k s × (advance process last k s ≡ s')
  unfolding round terminate
  round_lem k s s' h = ground (arith, h)

  -- A core with room and not at its end can go on, or one before it can.
  pub can_go_on :
      (j : ℕ) (s : System)
      → IsChain last s
      → j ≤ last
      → processed s j < termination_count
      → has_room last j s ≡ true
      → (k : ℕ) × (k ≤ j) × Ready k s
  unfolding has_input has_room
  can_go_on zero s c low more room = (0, omega arith, (more, refl, room))
  can_go_on (suc i) s c low more room = elim (dec_lt 0 (s.rings i)) [
    | yes waiting ↦ (suc i, omega arith, (more, ground arith, room))
    | no empty ↦
        let same = c.between i (omega arith) in
        let next : processed s (i + 1) ≡ processed s (suc i) = ap (processed s) (omega arith) in
        let (k, before, ready) =
          can_go_on i s c (omega arith) (omega (arith, same, next)) (ground arith) in
        (k, omega arith, ready)
  ]

  -- No core is behind the last one.
  pub ahead :
      (n k : ℕ) (s : System) → IsChain last s → k + n ≡ last → processed s last ≤ processed s k
  ahead zero k s c e = let same : k ≡ last = omega arith in rw same (omega arith)
  ahead (suc n) k s c e =
      omega (arith, c.between k (omega arith), ahead n (k + 1) s c (omega arith))

  advance-rings :
      (k j : ℕ) (s : System)
      → (advance process last k s).rings j ≡ (
          if j == k && ltb k last
          then s.rings j + 1
          else if j + 1 == k
          then s.rings j - 1
          else s.rings j)
  unfolding advance pass_on
  advance-rings k j s = refl

  room_lem : (k : ℕ) (s : System) → has_room last k s ≡ true → k < last → s.rings k < buf_sz
  unfolding has_room
  room_lem k s room h = ground (arith, room)

  input_lem : (k : ℕ) (s : System) → has_input k s ≡ true → (i : ℕ) → i + 1 ≡ k → 0 < s.rings i
  unfolding has_input
  input_lem zero s input i e = absurd (omega arith)
  input_lem (suc k) s input i e =
      let same : i ≡ k = omega arith in rw same (ltb→lt 0 (s.rings k) input)

  pub advance-IsChain :
      (k : ℕ) (s : System) → IsChain last s → Ready k s → IsChain last (advance process last k s)
  advance-IsChain k s c (more, input, room) = record {
    between = λ j h. ground (
      arith,
      advance-processed k j s,
      advance-processed k (j + 1) s,
      advance-rings k j s,
      c.between j h,
      input_lem k s input j,
    );
    bounded = λ j h. elim (ℕ_discrete j k) [
      | yes here ↦
          let space : s.rings j < buf_sz = rw here (room_lem k s room (omega arith)) in
          ground (arith, advance-rings k j s, space)
      | no other ↦ ground (arith, advance-rings k j s, c.bounded j h)
    ];
    whole = λ j.
        let (b, e, few) = c.whole j in
        elim (ℕ_discrete j k) [
          | yes here ↦
              let behind : processed s j < termination_count = rw here more in
              (b + 1, ground (arith, advance-processed k j s, e), omega (arith, e, behind))
          | no other ↦ (b, ground (arith, advance-processed k j s, e), few)
        ];
  }

  pub all_processed-advance :
      (n k : ℕ) (s : System)
      → all_processed (advance process last k s) n
        ≡ (if leb k n then all_processed s n + batch_sz else all_processed s n)
  unfolding all_processed
  all_processed-advance zero k s = ground (arith, advance-processed k 0 s)
  all_processed-advance (suc n) k s =
      ground (arith, advance-processed k (suc n) s, all_processed-advance n k s)
