-- ===== src/Counters.antt =====
-- src/doradd/txcounter.hpp, built with LOG_LATENCY: the counter of executed transactions that each
-- worker thread has, and the maps in which the counters are registered.
--
-- An instance is registered in `counter_map` and `log_map` as long as it lives, so that one list holds the
-- instances and both maps. A map has one entry for a thread.
pub mod Update
pub mod Sum
pub mod Unordered
mod Tests
use doradd_storage.Base.{
  ℕ, zero, suc, ◌+◌, ◌%◌, List, [], ◌∷◌, ◌++◌, map, Bool, true, false, ◌||◌, if◌then◌else◌, ◌==◌,
  add64,
}

abbrev pub sample_rate : ℕ
sample_rate = 10

pub record TxCounter : Type 0 where
  pub thread : ℕ
  pub tx_cnt : ℕ
  pub log_arr : List ℕ

-- The constructor, as far as the instance goes.
abbrev pub new : ℕ → TxCounter
new thread = record { thread = thread; tx_cnt = 0; log_arr = [] }

unfoldable pub registered : ℕ → List TxCounter → Bool
registered thread [] = false
registered thread (c ∷ cs) = c.thread == thread || registered thread cs

-- `TxCounter::instance()`: the first call of a thread makes its instance, which registers itself.
unfoldable pub instance_of : ℕ → List TxCounter → List TxCounter
instance_of thread cs = if registered thread cs then cs else new thread ∷ cs

-- A change of the instance of one thread.
unfoldable pub update : ℕ → (TxCounter → TxCounter) → List TxCounter → List TxCounter
update thread f [] = []
update thread f (c ∷ cs) =
    let rest = update thread f cs in if c.thread == thread then f c ∷ cs else c ∷ rest

unfoldable pub incr : TxCounter → TxCounter
incr c = record c { tx_cnt = add64 c.tx_cnt 1 }

-- `micros` is the duration since the arrival in microseconds, as it is cast to an integer.
unfoldable pub log_latency : ℕ → TxCounter → TxCounter
log_latency micros c =
    if c.tx_cnt % sample_rate == 0 then record c { log_arr = c.log_arr ++ (micros ∷ []) } else c

-- The destructor, when the thread ends.
unfoldable pub destroy : ℕ → List TxCounter → List TxCounter
destroy thread [] = []
destroy thread (c ∷ cs) =
    let rest = destroy thread cs in if c.thread == thread then cs else c ∷ rest

pub data Event : Type 0 where
  executed : ℕ → ℕ → Event
  new_order : ℕ → ℕ → Event
  exited : ℕ → Event

-- The end of a behaviour on a thread, which logs and then counts in M_LOG_LATENCY of app/ycsb.cc and in the
-- payment of app/tpcc.cc, and counts and then logs in NEWORDER_END of app/tpcc.cc; and the end of a thread.
unfoldable pub step : Event → List TxCounter → List TxCounter
step (executed thread micros) cs =
    update thread incr
      (instance_of thread (update thread (log_latency micros) (instance_of thread cs)))
step (new_order thread micros) cs =
    update thread (log_latency micros)
      (instance_of thread (update thread incr (instance_of thread cs)))
step (exited thread) cs = destroy thread cs

unfoldable pub steps : List Event → List TxCounter → List TxCounter
steps [] cs = cs
steps (e ∷ es) cs = steps es (step e cs)

-- What the dispatcher finds in `counter_map`.
abbrev pub counter_map : List TxCounter → List ℕ
counter_map cs = map (λ (c : TxCounter). c.tx_cnt) cs
