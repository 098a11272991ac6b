-- ===== src/Chain/Switch/Upto26.antt =====
-- The cases 19 to 26 of the switch of app/chain.cc: the registers that each hands to `when`.
use doradd_storage.Base.{ℕ, List, [], ◌∷◌}

abbrev pub case_19 : (ℕ → ℕ) → List ℕ
case_19 r =
    r 0
    ∷ r 1
    ∷ r 2
    ∷ r 3
    ∷ r 4
    ∷ r 5
    ∷ r 6
    ∷ r 7
    ∷ r 8
    ∷ r 9
    ∷ r 10
    ∷ r 11
    ∷ r 12
    ∷ r 13
    ∷ r 14
    ∷ r 15
    ∷ r 16
    ∷ r 17
    ∷ r 18
    ∷ []

abbrev pub case_20 : (ℕ → ℕ) → List ℕ
case_20 r =
    r 0
    ∷ r 1
    ∷ r 2
    ∷ r 3
    ∷ r 4
    ∷ r 5
    ∷ r 6
    ∷ r 7
    ∷ r 8
    ∷ r 9
    ∷ r 10
    ∷ r 11
    ∷ r 12
    ∷ r 13
    ∷ r 14
    ∷ r 15
    ∷ r 16
    ∷ r 17
    ∷ r 18
    ∷ r 19
    ∷ []

abbrev pub case_21 : (ℕ → ℕ) → List ℕ
case_21 r =
    r 0
    ∷ r 1
    ∷ r 2
    ∷ r 3
    ∷ r 4
    ∷ r 5
    ∷ r 6
    ∷ r 7
    ∷ r 8
    ∷ r 9
    ∷ r 10
    ∷ r 11
    ∷ r 12
    ∷ r 13
    ∷ r 14
    ∷ r 15
    ∷ r 16
    ∷ r 17
    ∷ r 18
    ∷ r 19
    ∷ r 20
    ∷ []

abbrev pub case_22 : (ℕ → ℕ) → List ℕ
case_22 r =
    r 0
    ∷ r 1
    ∷ r 2
    ∷ r 3
    ∷ r 4
    ∷ r 5
    ∷ r 6
    ∷ r 7
    ∷ r 8
    ∷ r 9
    ∷ r 10
    ∷ r 11
    ∷ r 12
    ∷ r 13
    ∷ r 14
    ∷ r 15
    ∷ r 16
    ∷ r 17
    ∷ r 18
    ∷ r 19
    ∷ r 20
    ∷ r 21
    ∷ []

abbrev pub case_23 : (ℕ → ℕ) → List ℕ
case_23 r =
    r 0
    ∷ r 1
    ∷ r 2
    ∷ r 3
    ∷ r 4
    ∷ r 5
    ∷ r 6
    ∷ r 7
    ∷ r 8
    ∷ r 9
    ∷ r 10
    ∷ r 11
    ∷ r 12
    ∷ r 13
    ∷ r 14
    ∷ r 15
    ∷ r 16
    ∷ r 17
    ∷ r 18
    ∷ r 19
    ∷ r 20
    ∷ r 21
    ∷ r 22
    ∷ []

abbrev pub case_24 : (ℕ → ℕ) → List ℕ
case_24 r =
    r 0
    ∷ r 1
    ∷ r 2
    ∷ r 3
    ∷ r 4
    ∷ r 5
    ∷ r 6
    ∷ r 7
    ∷ r 8
    ∷ r 9
    ∷ r 10
    ∷ r 11
    ∷ r 12
    ∷ r 13
    ∷ r 14
    ∷ r 15
    ∷ r 16
    ∷ r 17
    ∷ r 18
    ∷ r 19
    ∷ r 20
    ∷ r 21
    ∷ r 22
    ∷ r 23
    ∷ []

abbrev pub case_25 : (ℕ → ℕ) → List ℕ
case_25 r =
    r 0
    ∷ r 1
    ∷ r 2
    ∷ r 3
    ∷ r 4
    ∷ r 5
    ∷ r 6
    ∷ r 7
    ∷ r 8
    ∷ r 9
    ∷ r 10
    ∷ r 11
    ∷ r 12
    ∷ r 13
    ∷ r 14
    ∷ r 15
    ∷ r 16
    ∷ r 17
    ∷ r 18
    ∷ r 19
    ∷ r 20
    ∷ r 21
    ∷ r 22
    ∷ r 23
    ∷ r 24
    ∷ []

abbrev pub case_26 : (ℕ → ℕ) → List ℕ
case_26 r =
    r 0
    ∷ r 1
    ∷ r 2
    ∷ r 3
    ∷ r 4
    ∷ r 5
    ∷ r 6
    ∷ r 7
    ∷ r 8
    ∷ r 9
    ∷ r 10
    ∷ r 11
    ∷ r 12
    ∷ r 13
    ∷ r 14
    ∷ r 15
    ∷ r 16
    ∷ r 17
    ∷ r 18
    ∷ r 19
    ∷ r 20
    ∷ r 21
    ∷ r 22
    ∷ r 23
    ∷ r 24
    ∷ r 25
    ∷ []
