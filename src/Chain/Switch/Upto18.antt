-- ===== src/Chain/Switch/Upto18.antt =====
-- The cases 1 to 18 of the switch of app/chain.cc: the registers that each hands to `when`.
use doradd_storage.Base.{ℕ, List, [], ◌∷◌}

abbrev pub case_1 : (ℕ → ℕ) → List ℕ
case_1 r = r 0 ∷ []

abbrev pub case_2 : (ℕ → ℕ) → List ℕ
case_2 r = r 0 ∷ r 1 ∷ []

abbrev pub case_3 : (ℕ → ℕ) → List ℕ
case_3 r = r 0 ∷ r 1 ∷ r 2 ∷ []

abbrev pub case_4 : (ℕ → ℕ) → List ℕ
case_4 r = r 0 ∷ r 1 ∷ r 2 ∷ r 3 ∷ []

abbrev pub case_5 : (ℕ → ℕ) → List ℕ
case_5 r = r 0 ∷ r 1 ∷ r 2 ∷ r 3 ∷ r 4 ∷ []

abbrev pub case_6 : (ℕ → ℕ) → List ℕ
case_6 r = r 0 ∷ r 1 ∷ r 2 ∷ r 3 ∷ r 4 ∷ r 5 ∷ []

abbrev pub case_7 : (ℕ → ℕ) → List ℕ
case_7 r = r 0 ∷ r 1 ∷ r 2 ∷ r 3 ∷ r 4 ∷ r 5 ∷ r 6 ∷ []

abbrev pub case_8 : (ℕ → ℕ) → List ℕ
case_8 r = r 0 ∷ r 1 ∷ r 2 ∷ r 3 ∷ r 4 ∷ r 5 ∷ r 6 ∷ r 7 ∷ []

abbrev pub case_9 : (ℕ → ℕ) → List ℕ
case_9 r = r 0 ∷ r 1 ∷ r 2 ∷ r 3 ∷ r 4 ∷ r 5 ∷ r 6 ∷ r 7 ∷ r 8 ∷ []

abbrev pub case_10 : (ℕ → ℕ) → List ℕ
case_10 r = r 0 ∷ r 1 ∷ r 2 ∷ r 3 ∷ r 4 ∷ r 5 ∷ r 6 ∷ r 7 ∷ r 8 ∷ r 9 ∷ []

abbrev pub case_11 : (ℕ → ℕ) → List ℕ
case_11 r = r 0 ∷ r 1 ∷ r 2 ∷ r 3 ∷ r 4 ∷ r 5 ∷ r 6 ∷ r 7 ∷ r 8 ∷ r 9 ∷ r 10 ∷ []

abbrev pub case_12 : (ℕ → ℕ) → List ℕ
case_12 r = r 0 ∷ r 1 ∷ r 2 ∷ r 3 ∷ r 4 ∷ r 5 ∷ r 6 ∷ r 7 ∷ r 8 ∷ r 9 ∷ r 10 ∷ r 11 ∷ []

abbrev pub case_13 : (ℕ → ℕ) → List ℕ
case_13 r = r 0 ∷ r 1 ∷ r 2 ∷ r 3 ∷ r 4 ∷ r 5 ∷ r 6 ∷ r 7 ∷ r 8 ∷ r 9 ∷ r 10 ∷ r 11 ∷ r 12 ∷ []

abbrev pub case_14 : (ℕ → ℕ) → List ℕ
case_14 r =
    r 0 ∷ r 1 ∷ r 2 ∷ r 3 ∷ r 4 ∷ r 5 ∷ r 6 ∷ r 7 ∷ r 8 ∷ r 9 ∷ r 10 ∷ r 11 ∷ r 12 ∷ r 13 ∷ []

abbrev pub case_15 : (ℕ → ℕ) → List ℕ
case_15 r =
    r 0
    ∷ r 1
    ∷ r 2
    ∷ r 3
    ∷ r 4
    ∷ r 5
    ∷ r 6
    ∷ r 7
    ∷ r 8
    ∷ r 9
    ∷ r 10
    ∷ r 11
    ∷ r 12
    ∷ r 13
    ∷ r 14
    ∷ []

abbrev pub case_16 : (ℕ → ℕ) → List ℕ
case_16 r =
    r 0
    ∷ r 1
    ∷ r 2
    ∷ r 3
    ∷ r 4
    ∷ r 5
    ∷ r 6
    ∷ r 7
    ∷ r 8
    ∷ r 9
    ∷ r 10
    ∷ r 11
    ∷ r 12
    ∷ r 13
    ∷ r 14
    ∷ r 15
    ∷ []

abbrev pub case_17 : (ℕ → ℕ) → List ℕ
case_17 r =
    r 0
    ∷ r 1
    ∷ r 2
    ∷ r 3
    ∷ r 4
    ∷ r 5
    ∷ r 6
    ∷ r 7
    ∷ r 8
    ∷ r 9
    ∷ r 10
    ∷ r 11
    ∷ r 12
    ∷ r 13
    ∷ r 14
    ∷ r 15
    ∷ r 16
    ∷ []

abbrev pub case_18 : (ℕ → ℕ) → List ℕ
case_18 r =
    r 0
    ∷ r 1
    ∷ r 2
    ∷ r 3
    ∷ r 4
    ∷ r 5
    ∷ r 6
    ∷ r 7
    ∷ r 8
    ∷ r 9
    ∷ r 10
    ∷ r 11
    ∷ r 12
    ∷ r 13
    ∷ r 14
    ∷ r 15
    ∷ r 16
    ∷ r 17
    ∷ []
