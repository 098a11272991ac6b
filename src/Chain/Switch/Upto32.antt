-- ===== src/Chain/Switch/Upto32.antt =====
-- The cases 27 to 32 of the switch of app/chain.cc: the registers that each hands to `when`.
use doradd_storage.Base.{ℕ, List, [], ◌∷◌}

abbrev pub case_27 : (ℕ → ℕ) → List ℕ
case_27 r =
    r 0
    ∷ r 1
    ∷ r 2
    ∷ r 3
    ∷ r 4
    ∷ r 5
    ∷ r 6
    ∷ r 7
    ∷ r 8
    ∷ r 9
    ∷ r 10
    ∷ r 11
    ∷ r 12
    ∷ r 13
    ∷ r 14
    ∷ r 15
    ∷ r 16
    ∷ r 17
    ∷ r 18
    ∷ r 19
    ∷ r 20
    ∷ r 21
    ∷ r 22
    ∷ r 23
    ∷ r 24
    ∷ r 25
    ∷ r 26
    ∷ []

abbrev pub case_28 : (ℕ → ℕ) → List ℕ
case_28 r =
    r 0
    ∷ r 1
    ∷ r 2
    ∷ r 3
    ∷ r 4
    ∷ r 5
    ∷ r 6
    ∷ r 7
    ∷ r 8
    ∷ r 9
    ∷ r 10
    ∷ r 11
    ∷ r 12
    ∷ r 13
    ∷ r 14
    ∷ r 15
    ∷ r 16
    ∷ r 17
    ∷ r 18
    ∷ r 19
    ∷ r 20
    ∷ r 21
    ∷ r 22
    ∷ r 23
    ∷ r 24
    ∷ r 25
    ∷ r 26
    ∷ r 27
    ∷ []

abbrev pub case_29 : (ℕ → ℕ) → List ℕ
case_29 r =
    r 0
    ∷ r 1
    ∷ r 2
    ∷ r 3
    ∷ r 4
    ∷ r 5
    ∷ r 6
    ∷ r 7
    ∷ r 8
    ∷ r 9
    ∷ r 10
    ∷ r 11
    ∷ r 12
    ∷ r 13
    ∷ r 14
    ∷ r 15
    ∷ r 16
    ∷ r 17
    ∷ r 18
    ∷ r 19
    ∷ r 20
    ∷ r 21
    ∷ r 22
    ∷ r 23
    ∷ r 24
    ∷ r 25
    ∷ r 26
    ∷ r 27
    ∷ r 28
    ∷ []

abbrev pub case_30 : (ℕ → ℕ) → List ℕ
case_30 r =
    r 0
    ∷ r 1
    ∷ r 2
    ∷ r 3
    ∷ r 4
    ∷ r 5
    ∷ r 6
    ∷ r 7
    ∷ r 8
    ∷ r 9
    ∷ r 10
    ∷ r 11
    ∷ r 12
    ∷ r 13
    ∷ r 14
    ∷ r 15
    ∷ r 16
    ∷ r 17
    ∷ r 18
    ∷ r 19
    ∷ r 20
    ∷ r 21
    ∷ r 22
    ∷ r 23
    ∷ r 24
    ∷ r 25
    ∷ r 26
    ∷ r 27
    ∷ r 28
    ∷ r 29
    ∷ []

abbrev pub case_31 : (ℕ → ℕ) → List ℕ
case_31 r =
    r 0
    ∷ r 1
    ∷ r 2
    ∷ r 3
    ∷ r 4
    ∷ r 5
    ∷ r 6
    ∷ r 7
    ∷ r 8
    ∷ r 9
    ∷ r 10
    ∷ r 11
    ∷ r 12
    ∷ r 13
    ∷ r 14
    ∷ r 15
    ∷ r 16
    ∷ r 17
    ∷ r 18
    ∷ r 19
    ∷ r 20
    ∷ r 21
    ∷ r 22
    ∷ r 23
    ∷ r 24
    ∷ r 25
    ∷ r 26
    ∷ r 27
    ∷ r 28
    ∷ r 29
    ∷ r 30
    ∷ []

abbrev pub case_32 : (ℕ → ℕ) → List ℕ
case_32 r =
    r 0
    ∷ r 1
    ∷ r 2
    ∷ r 3
    ∷ r 4
    ∷ r 5
    ∷ r 6
    ∷ r 7
    ∷ r 8
    ∷ r 9
    ∷ r 10
    ∷ r 11
    ∷ r 12
    ∷ r 13
    ∷ r 14
    ∷ r 15
    ∷ r 16
    ∷ r 17
    ∷ r 18
    ∷ r 19
    ∷ r 20
    ∷ r 21
    ∷ r 22
    ∷ r 23
    ∷ r 24
    ∷ r 25
    ∷ r 26
    ∷ r 27
    ∷ r 28
    ∷ r 29
    ∷ r 30
    ∷ r 31
    ∷ []
