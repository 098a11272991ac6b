-- ===== src/Stages/Example.antt =====
-- A small log and its transactions, with lists of bounded length for the rings.
use doradd_storage.Base.{
  true, false, ℕ, ◌+◌, ◌≡◌, refl, ap, List, [], ◌∷◌, ◌++◌, Option, none, some, arith, length,
  if◌then◌else◌, ltb, contains,
}
use doradd_storage.Config.{channel_size}
use doradd_storage.Txn.{TxnType, Sized}
use doradd_storage.Stages.{Garbage, new_indexer, new_prefetcher, new_spawner}
use doradd_storage.Stages.Ring.{SpscQueue}
use doradd_storage.Stages.Recording.{Recorded, blank}
use doradd_storage.Stages.Pipeline.{Pipe, looking, pushing, popping, build}

abbrev head_of : List ℕ → Option ℕ
head_of [] = none
head_of (v ∷ l) = some v

abbrev rest_of : List ℕ → List ℕ
rest_of [] = []
rest_of (v ∷ l) = l

abbrev push_bounded : ℕ → List ℕ → Option (List ℕ)
push_bounded v l = if ltb (length l) channel_size then some (l ++ (v ∷ [])) else none

abbrev head_of_lem : (q : List ℕ) (v : ℕ) → head_of q ≡ some v → (l : List ℕ) × (q ≡ v ∷ l)
head_of_lem [] v h = absurd (cc)
head_of_lem (x ∷ l) v h = (l, ground arith)

abbrev head_of-none_lem : (q : List ℕ) → head_of q ≡ none → q ≡ []
head_of-none_lem [] h = refl
head_of-none_lem (x ∷ l) h = absurd (cc)

abbrev pub list_ring : SpscQueue (List ℕ)
list_ring = record {
  front = head_of;
  push = push_bounded;
  pop = rest_of;
  to_list = λ q. q;
  front_lem = head_of_lem;
  push_lem = λ v q q' h. ground arith;
  pop_lem = λ q v l h. ap rest_of h;
  front-none_lem = head_of-none_lem;
  push-empty_lem = λ v q h. (v ∷ [], rw h refl);
}

-- The entries that are prepared, and what is spawned.
pub record Pages : Type 0 where
  pub ready : List ℕ
  pub spawned : List (ℕ × ℕ)

-- A transaction whose processing depends on its preparation.
abbrev pub tracer : TxnType Pages
tracer = record {
  prepare_cowns = λ a w. (record w { ready = a ∷ w.ready }, 8);
  prefetch_cowns = λ a w. (w, 8);
  parse_and_process = λ a s w.
      (record w { spawned = if contains w.ready a then (a, s) ∷ w.spawned else w.spawned }, 8);
}

abbrev pub pages : Pages
pages = record { ready = []; spawned = [] }

pub tracer-Sized : Sized tracer 8
tracer-Sized = record {
  prepare_size = λ a w. refl;
  prefetch_size = λ a w. refl;
  process_size = λ a s w. refl;
}

abbrev pub stamp : ℕ → ℕ
stamp l = l + 100

abbrev pub State : Type 0
State = Pipe (List ℕ) (Recorded Pages)

abbrev pub unset : Garbage
unset = record { batch = 77; counter_registered = false; tx_exec_sum = 5 }

abbrev pub s0 : State
s0 = build [] [] 0 6 1 unset (blank pages)

abbrev pub indexed_two : State
indexed_two = record s0 {
  indexer = record (new_indexer 0 6 unset) {
    handled_req_cnt = 2;
    read_idx = 2;
    read_head = 20;
    batch = 2;
  };
  index_phase = pushing;
  world = record {
    world = record { ready = 12 ∷ 4 ∷ []; spawned = [] };
    prepared = 4 ∷ 12 ∷ [];
    processed = [];
  };
  indexed = 2 ∷ [];
}

abbrev pub pushed_two : State
pushed_two = record indexed_two { index_phase = looking; ring_idx_pref = 2 ∷ [] }

abbrev pub fetched_two : State
fetched_two = record pushed_two {
  prefetcher = record (new_prefetcher 0 6) { read_head = 20; idx = 2 };
  prefetch_phase = pushing;
  prefetch_sz = 2;
  fetched = 2 ∷ [];
}

abbrev pub passed_two : State
passed_two = record fetched_two { prefetch_phase = popping; ring_pref_disp = 2 ∷ [] }

abbrev pub spawned_two : State
spawned_two = record passed_two {
  spawner = record (new_spawner 0 6 1 unset) {
    read_head = 20;
    prepare_read_head = 20;
    idx = 2;
    txn_log_id = 2;
    tx_count = 2;
    tx_spawn_sum = 2;
    counter_registered = true;
  };
  spawn_phase = popping;
  spawn_sz = 2;
  world = record {
    world = record { ready = 12 ∷ 4 ∷ []; spawned = (12, 101) ∷ (4, 100) ∷ [] };
    prepared = 4 ∷ 12 ∷ [];
    processed = (4, 100) ∷ (12, 101) ∷ [];
  };
  spawned = 2 ∷ [];
}
