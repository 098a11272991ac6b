-- ===== src/Chain/Switch.antt =====
-- The switch of app/chain.cc over the number of writes, case by case: which of the registers `r0`, `r1`,
-- ... that GET_COWN declares each case hands to `when`, and in which order.
mod Upto18
mod Upto26
mod Upto32
mod Upto38
use doradd_storage.Base.{ℕ, List, Option, none, some, if◌then◌else◌, ◌==◌}
use Upto18.{
  case_1, case_2, case_3, case_4, case_5, case_6, case_7, case_8, case_9, case_10, case_11, case_12,
  case_13, case_14, case_15, case_16, case_17, case_18,
}
use Upto26.{case_19, case_20, case_21, case_22, case_23, case_24, case_25, case_26}
use Upto32.{case_27, case_28, case_29, case_30, case_31, case_32}
use Upto38.{case_33, case_34, case_35, case_36, case_37, case_38}

-- The switch; `none` is the `default`, which spawns nothing.
unfoldable pub switch_mixed : ℕ → (ℕ → ℕ) → Option (List ℕ)
switch_mixed num_writes r =
    if num_writes == 1
    then some (case_1 r)
    else if num_writes == 2
    then some (case_2 r)
    else if num_writes == 3
    then some (case_3 r)
    else if num_writes == 4
    then some (case_4 r)
    else if num_writes == 5
    then some (case_5 r)
    else if num_writes == 6
    then some (case_6 r)
    else if num_writes == 7
    then some (case_7 r)
    else if num_writes == 8
    then some (case_8 r)
    else if num_writes == 9
    then some (case_9 r)
    else if num_writes == 10
    then some (case_10 r)
    else if num_writes == 11
    then some (case_11 r)
    else if num_writes == 12
    then some (case_12 r)
    else if num_writes == 13
    then some (case_13 r)
    else if num_writes == 14
    then some (case_14 r)
    else if num_writes == 15
    then some (case_15 r)
    else if num_writes == 16
    then some (case_16 r)
    else if num_writes == 17
    then some (case_17 r)
    else if num_writes == 18
    then some (case_18 r)
    else if num_writes == 19
    then some (case_19 r)
    else if num_writes == 20
    then some (case_20 r)
    else if num_writes == 21
    then some (case_21 r)
    else if num_writes == 22
    then some (case_22 r)
    else if num_writes == 23
    then some (case_23 r)
    else if num_writes == 24
    then some (case_24 r)
    else if num_writes == 25
    then some (case_25 r)
    else if num_writes == 26
    then some (case_26 r)
    else if num_writes == 27
    then some (case_27 r)
    else if num_writes == 28
    then some (case_28 r)
    else if num_writes == 29
    then some (case_29 r)
    else if num_writes == 30
    then some (case_30 r)
    else if num_writes == 31
    then some (case_31 r)
    else if num_writes == 32
    then some (case_32 r)
    else if num_writes == 33
    then some (case_33 r)
    else if num_writes == 34
    then some (case_34 r)
    else if num_writes == 35
    then some (case_35 r)
    else if num_writes == 36
    then some (case_36 r)
    else if num_writes == 37
    then some (case_37 r)
    else if num_writes == 38
    then some (case_38 r)
    else none
