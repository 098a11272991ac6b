-- ===== src/Stages/Ring.antt =====
-- rigtorp::SPSCQueue, which is not part of the repository: the calls that the stages make, and what
-- its documentation promises of them. `to_list` is the content, oldest first.
use doradd_storage.Base.{ℕ, ◌≡◌, Option, none, some, List, [], ◌∷◌, ◌++◌}

pub record SpscQueue (Q : Type 0) : Type 0 where
  pub front : Q → Option ℕ
  -- `none` while the queue is full, where the call waits.
  pub push : ℕ → Q → Option Q
  pub pop : Q → Q
  pub to_list : Q → List ℕ
  pub front_lem : (q : Q) (v : ℕ) → front q ≡ some v → (l : List ℕ) × (to_list q ≡ v ∷ l)
  pub push_lem : (v : ℕ) (q q' : Q) → push v q ≡ some q' → to_list q' ≡ to_list q ++ (v ∷ [])
  pub pop_lem : (q : Q) (v : ℕ) (l : List ℕ) → to_list q ≡ v ∷ l → to_list (pop q) ≡ l
  pub front-none_lem : (q : Q) → front q ≡ none → to_list q ≡ []
  -- A queue has room for one value at least.
  pub push-empty_lem : (v : ℕ) (q : Q) → to_list q ≡ [] → (q' : Q) × (push v q ≡ some q')
