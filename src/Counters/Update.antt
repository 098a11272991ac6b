-- ===== src/Counters/Update.antt =====
-- What a change of one thread's counter does to the list of counters.
use doradd_storage.Base.{
  ℕ, ◌+◌, ◌/◌, ◌≤◌, ◌<◌, ◌≡◌, refl, ap, ◌∙◌, List, [], ◌∷◌, Bool, true, false, arith, length,
  length-append, All, u64_mod, ◌==◌, if◌then◌else◌,
}
use doradd_storage.Counters.{
  sample_rate, TxCounter, executed, new_order, new, registered, instance_of, update, incr,
  log_latency, destroy, step,
}

unfoldable pub total : List TxCounter → ℕ
total [] = 0
total (c ∷ cs) = c.tx_cnt + total cs

-- One latency is logged for each ten transactions of a thread: for the first of them when `late` is 9, for
-- the last of them when `late` is 0.
abbrev pub IsSampled : ℕ → TxCounter → Type 0
IsSampled late c = length c.log_arr ≡ (c.tx_cnt + late) / sample_rate

pub total-update :
    (thread k : ℕ) (f : TxCounter → TxCounter) (cs : List TxCounter)
    → ((c : TxCounter) → c.tx_cnt ≤ total cs → (f c).tx_cnt ≡ c.tx_cnt + k)
    → registered thread cs ≡ true
    → total (update thread f cs) ≡ total cs + k
unfolding update registered total
total-update thread k f [] adds h = absurd (ground (arith, h))
total-update thread k f (c ∷ cs) adds h =
    ground (arith, adds c (omega arith), total-update thread k f cs (λ d low. adds d (omega arith)))

pub registered-instance_of :
    (thread : ℕ) (cs : List TxCounter) → registered thread (instance_of thread cs) ≡ true
unfolding instance_of registered
registered-instance_of thread cs = ground arith

instance_of-registered :
    (thread : ℕ) (cs : List TxCounter) → registered thread cs ≡ true → instance_of thread cs ≡ cs
unfolding instance_of
instance_of-registered thread cs h = rw h refl

pub total-instance_of :
    (thread : ℕ) (cs : List TxCounter) → total (instance_of thread cs) ≡ total cs
unfolding instance_of total
total-instance_of thread cs = ground arith

registered-update :
    (thread u : ℕ) (f : TxCounter → TxCounter) (cs : List TxCounter)
    → ((c : TxCounter) → (f c).thread ≡ c.thread)
    → registered u (update thread f cs) ≡ registered u cs
unfolding update registered
registered-update thread u f [] same = refl
registered-update thread u f (c ∷ cs) same =
    ground (arith, same c, registered-update thread u f cs same)

update-update :
    (thread : ℕ) (f g : TxCounter → TxCounter) (cs : List TxCounter)
    → ((c : TxCounter) → (f c).thread ≡ c.thread)
    → update thread g (update thread f cs) ≡ update thread (λ c. g (f c)) cs
unfolding update
update-update thread f g [] same = refl
update-update thread f g (c ∷ cs) same = ground (arith, same c, update-update thread f g cs same)

log_latency-thread : (micros : ℕ) (c : TxCounter) → (log_latency micros c).thread ≡ c.thread
unfolding log_latency
log_latency-thread micros c = ground arith

twice :
    (thread : ℕ) (f g : TxCounter → TxCounter) (cs : List TxCounter)
    → ((c : TxCounter) → (f c).thread ≡ c.thread)
    → update thread g (instance_of thread (update thread f (instance_of thread cs)))
      ≡ update thread (λ c. g (f c)) (instance_of thread cs)
twice thread f g cs same =
    let made = instance_of thread cs in
    ap (update thread g) (
      instance_of-registered thread (update thread f made)
        (registered-update thread thread f made same ∙ registered-instance_of thread cs))
    ∙ update-update thread f g made same

-- One transaction more on its thread: a latency, perhaps, and then the count.
pub step-executed :
    (thread micros : ℕ) (cs : List TxCounter)
    → step (executed thread micros) cs
      ≡ update thread (λ c. incr (log_latency micros c)) (instance_of thread cs)
unfolding step
step-executed thread micros cs =
    twice thread (log_latency micros) incr cs (log_latency-thread micros)

-- The count, and then perhaps a latency.
pub step-new_order :
    (thread micros : ℕ) (cs : List TxCounter)
    → step (new_order thread micros) cs
      ≡ update thread (λ c. log_latency micros (incr c)) (instance_of thread cs)
unfolding step incr
step-new_order thread micros cs = twice thread incr (log_latency micros) cs (λ c. refl)

pub count-incr :
    (micros : ℕ) (c : TxCounter)
    → c.tx_cnt + 1 < u64_mod
    → (incr (log_latency micros c)).tx_cnt ≡ c.tx_cnt + 1
unfolding incr log_latency
count-incr micros c h = ground arith

pub count-log_latency :
    (micros : ℕ) (c : TxCounter)
    → c.tx_cnt + 1 < u64_mod
    → (log_latency micros (incr c)).tx_cnt ≡ c.tx_cnt + 1
unfolding incr log_latency
count-log_latency micros c h = ground arith

pub IsSampled-incr :
    (micros : ℕ) (c : TxCounter)
    → c.tx_cnt + 1 < u64_mod
    → IsSampled 9 c
    → IsSampled 9 (incr (log_latency micros c))
unfolding incr log_latency
IsSampled-incr micros c h ok = ground (arith, ok, length-append c.log_arr (micros ∷ []))

pub IsSampled-log_latency :
    (micros : ℕ) (c : TxCounter)
    → c.tx_cnt + 1 < u64_mod
    → IsSampled 0 c
    → IsSampled 0 (log_latency micros (incr c))
unfolding incr log_latency
IsSampled-log_latency micros c h ok = ground (arith, ok, length-append c.log_arr (micros ∷ []))

pub total-destroy : (thread : ℕ) (cs : List TxCounter) → total (destroy thread cs) ≤ total cs
unfolding destroy total
total-destroy thread [] = omega arith
total-destroy thread (c ∷ cs) = ground (arith, total-destroy thread cs)

module _ (late : ℕ) where
  All-if :
      (b : Bool) (cs ds : List TxCounter)
      → All (IsSampled late) cs
      → All (IsSampled late) ds
      → All (IsSampled late) (if b then cs else ds)
  All-if true cs ds hc hd = hc
  All-if false cs ds hc hd = hd

  pub All-update :
      (thread bound : ℕ) (f : TxCounter → TxCounter) (cs : List TxCounter)
      → ((c : TxCounter) → c.tx_cnt ≤ bound → IsSampled late c → IsSampled late (f c))
      → total cs ≤ bound
      → All (IsSampled late) cs
      → All (IsSampled late) (update thread f cs)
  unfolding update total
  All-update thread bound f [] keeps h ok = tt
  All-update thread bound f (c ∷ cs) keeps h (first, ok) =
      All-if (c.thread == thread) (f c ∷ cs) (c ∷ update thread f cs)
        (keeps c (omega arith) first, ok)
        (first, All-update thread bound f cs keeps (omega arith) ok)

  pub All-destroy :
      (thread : ℕ) (cs : List TxCounter)
      → All (IsSampled late) cs
      → All (IsSampled late) (destroy thread cs)
  unfolding destroy
  All-destroy thread [] ok = tt
  All-destroy thread (c ∷ cs) (first, ok) =
      All-if (c.thread == thread) cs (c ∷ destroy thread cs) ok (first, All-destroy thread cs ok)

  pub All-instance_of :
      (thread : ℕ) (cs : List TxCounter)
      → late < sample_rate
      → All (IsSampled late) cs
      → All (IsSampled late) (instance_of thread cs)
  unfolding instance_of
  All-instance_of thread cs small ok =
      All-if (registered thread cs) cs (new thread ∷ cs) ok (omega arith, ok)
