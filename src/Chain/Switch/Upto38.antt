-- ===== src/Chain/Switch/Upto38.antt =====
-- The cases 33 to 38 of the switch of app/chain.cc: the registers that each hands to `when`.
use doradd_storage.Base.{ℕ, List, [], ◌∷◌}

abbrev pub case_33 : (ℕ → ℕ) → List ℕ
case_33 r =
    r 0
    ∷ r 1
    ∷ r 2
    ∷ r 3
    ∷ r 4
    ∷ r 5
    ∷ r 6
    ∷ r 7
    ∷ r 8
    ∷ r 9
    ∷ r 10
    ∷ r 11
    ∷ r 12
    ∷ r 13
    ∷ r 14
    ∷ r 15
    ∷ r 16
    ∷ r 17
    ∷ r 18
    ∷ r 19
    ∷ r 20
    ∷ r 21
    ∷ r 22
    ∷ r 23
    ∷ r 24
    ∷ r 25
    ∷ r 26
    ∷ r 27
    ∷ r 28
    ∷ r 29
    ∷ r 30
    ∷ r 31
    ∷ r 32
    ∷ []

abbrev pub case_34 : (ℕ → ℕ) → List ℕ
case_34 r =
    r 0
    ∷ r 1
    ∷ r 2
    ∷ r 3
    ∷ r 4
    ∷ r 5
    ∷ r 6
    ∷ r 7
    ∷ r 8
    ∷ r 9
    ∷ r 10
    ∷ r 11
    ∷ r 12
    ∷ r 13
    ∷ r 14
    ∷ r 15
    ∷ r 16
    ∷ r 17
    ∷ r 18
    ∷ r 19
    ∷ r 20
    ∷ r 21
    ∷ r 22
    ∷ r 23
    ∷ r 24
    ∷ r 25
    ∷ r 26
    ∷ r 27
    ∷ r 28
    ∷ r 29
    ∷ r 30
    ∷ r 31
    ∷ r 32
    ∷ r 33
    ∷ []

abbrev pub case_35 : (ℕ → ℕ) → List ℕ
case_35 r =
    r 0
    ∷ r 1
    ∷ r 2
    ∷ r 3
    ∷ r 4
    ∷ r 5
    ∷ r 6
    ∷ r 7
    ∷ r 8
    ∷ r 9
    ∷ r 10
    ∷ r 11
    ∷ r 12
    ∷ r 13
    ∷ r 14
    ∷ r 15
    ∷ r 16
    ∷ r 17
    ∷ r 18
    ∷ r 19
    ∷ r 20
    ∷ r 21
    ∷ r 22
    ∷ r 23
    ∷ r 24
    ∷ r 25
    ∷ r 26
    ∷ r 27
    ∷ r 28
    ∷ r 29
    ∷ r 30
    ∷ r 31
    ∷ r 32
    ∷ r 33
    ∷ r 34
    ∷ []

abbrev pub case_36 : (ℕ → ℕ) → List ℕ
case_36 r =
    r 0
    ∷ r 1
    ∷ r 2
    ∷ r 3
    ∷ r 4
    ∷ r 5
    ∷ r 6
    ∷ r 7
    ∷ r 8
    ∷ r 9
    ∷ r 10
    ∷ r 11
    ∷ r 12
    ∷ r 13
    ∷ r 14
    ∷ r 15
    ∷ r 16
    ∷ r 17
    ∷ r 18
    ∷ r 19
    ∷ r 20
    ∷ r 21
    ∷ r 22
    ∷ r 23
    ∷ r 24
    ∷ r 25
    ∷ r 26
    ∷ r 27
    ∷ r 28
    ∷ r 29
    ∷ r 30
    ∷ r 31
    ∷ r 32
    ∷ r 33
    ∷ r 34
    ∷ r 35
    ∷ []

abbrev pub case_37 : (ℕ → ℕ) → List ℕ
case_37 r =
    r 0
    ∷ r 1
    ∷ r 2
    ∷ r 3
    ∷ r 4
    ∷ r 5
    ∷ r 6
    ∷ r 7
    ∷ r 8
    ∷ r 9
    ∷ r 10
    ∷ r 11
    ∷ r 12
    ∷ r 13
    ∷ r 14
    ∷ r 15
    ∷ r 16
    ∷ r 17
    ∷ r 18
    ∷ r 19
    ∷ r 20
    ∷ r 21
    ∷ r 22
    ∷ r 23
    ∷ r 24
    ∷ r 25
    ∷ r 26
    ∷ r 27
    ∷ r 28
    ∷ r 29
    ∷ r 30
    ∷ r 31
    ∷ r 32
    ∷ r 33
    ∷ r 34
    ∷ r 35
    ∷ r 36
    ∷ []

abbrev pub case_38 : (ℕ → ℕ) → List ℕ
case_38 r =
    r 0
    ∷ r 1
    ∷ r 2
    ∷ r 3
    ∷ r 4
    ∷ r 5
    ∷ r 6
    ∷ r 7
    ∷ r 8
    ∷ r 9
    ∷ r 10
    ∷ r 11
    ∷ r 12
    ∷ r 13
    ∷ r 14
    ∷ r 15
    ∷ r 16
    ∷ r 17
    ∷ r 18
    ∷ r 19
    ∷ r 20
    ∷ r 21
    ∷ r 22
    ∷ r 23
    ∷ r 24
    ∷ r 25
    ∷ r 26
    ∷ r 27
    ∷ r 28
    ∷ r 29
    ∷ r 30
    ∷ r 31
    ∷ r 32
    ∷ r 33
    ∷ r 34
    ∷ r 35
    ∷ r 36
    ∷ r 37
    ∷ []
