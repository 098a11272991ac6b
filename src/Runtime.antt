-- ===== src/Runtime.antt =====
-- The contract of `when` of verona-rt, which is not part of the repository: a behaviour runs once, with
-- exclusive access to its cowns, when no behaviour that was spawned earlier and shares a cown with it
-- still waits. Which of those that may run does run next is up to the scheduler.
use doradd_storage.Base.{◌≡◌, refl, sym, ap, ◌∙◌, List, [], ◌∷◌, ◌++◌, All}

module _ {B S : Type 0} (Disjoint : B → B → Type 0) (body : B → S → S) where
  -- The order in which behaviours may run, against the order in which they were spawned.
  pub data Schedule : List B → List B → Type 0 where
    done : Schedule [] []
    run :
        (before : List B) (b : B) (after rest spawned : List B)
        → All (λ a. Disjoint a b) before
        → spawned ≡ before ++ (b ∷ after)
        → Schedule (before ++ after) rest
        → Schedule spawned (b ∷ rest)

  abbrev pub run_all : List B → S → S
  run_all [] s = s
  run_all (b ∷ bs) s = run_all bs (body b s)

  run_all-append : (as_ bs : List B) (s : S) → run_all (as_ ++ bs) s ≡ run_all bs (run_all as_ s)
  run_all-append [] bs s = refl
  run_all-append (a ∷ as_) bs s = run_all-append as_ bs (body a s)

  module _
      (commute : (a b : B) (s : S) → Disjoint a b → body b (body a s) ≡ body a (body b s)) where
    -- A behaviour moves in front of those that share no cown with it.
    run_all-front :
        (before : List B) (b : B) (s : S)
        → All (λ a. Disjoint a b) before
        → body b (run_all before s) ≡ run_all before (body b s)
    run_all-front [] b s d = refl
    run_all-front (a ∷ before) b s d =
        run_all-front before b (body a s) d.1 ∙ ap (run_all before) (commute a b s d.0)

    -- Every order that the runtime may choose leaves the state that the order of spawning leaves.
    pub run_all-Schedule :
        (spawned order : List B) (s : S)
        → Schedule spawned order
        → run_all order s ≡ run_all spawned s
    run_all-Schedule [] [] s Schedule.done = refl
    run_all-Schedule spawned order s (Schedule.run before b after rest spawned' d e later) =
        run_all-Schedule (before ++ after) rest (body b s) later
        ∙ run_all-append before after (body b s)
        ∙ ap (run_all after) (sym (run_all-front before b s d))
        ∙ sym (rw e (run_all-append before (b ∷ after) s))
