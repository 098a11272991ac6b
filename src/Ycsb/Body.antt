-- ===== src/Ycsb/Body.antt =====
-- What the lambda of a YCSB transaction reads and writes.
use doradd_storage.Base.{
  ℕ, ◌/◌, ◌%◌, ◌≡◌, refl, sym, ◌∙◌, inl, inr, List, [], ◌∷◌, Bool, true, false, ◌||◌, arith,
  if◌then◌else◌, ◌==◌, All, Bool-cases,
}
use mathlib.Core.Path.{fun_ext}
use mathlib.Core.Bool.{false≢true}
use doradd_storage.Ycsb.{Rows, Locals, Behaviour, txn_row, txn_rows, body}

abbrev pub contains : List ℕ → ℕ → Bool
contains [] x = false
contains (a ∷ as_) x = x == a || contains as_ x

-- The cowns whose bit is set in the write set.
abbrev pub writes : List ℕ → ℕ → List ℕ
writes [] ws = []
writes (a ∷ as_) ws = if ws % 2 == 1 then a ∷ writes as_ (ws / 2) else writes as_ (ws / 2)

-- The two behaviours share no cown.
abbrev pub Disjoint : Behaviour → Behaviour → Type 0
Disjoint a b = All (λ x. contains b.cowns x ≡ false) a.cowns

txn_rows-frame :
    (addrs : List ℕ) (s : Locals) (x : ℕ)
    → contains (writes addrs s.write_set_l) x ≡ false
    → (txn_rows addrs s).rows x ≡ s.rows x
unfolding txn_rows
txn_rows-frame [] s x h = refl
txn_rows-frame (a ∷ addrs) s x h = elim (Bool-cases (s.write_set_l % 2 == 1)) [
  | inl e ↦ ground (arith, txn_rows-frame addrs (txn_row a s) x)
  | inr e ↦ ground (arith, txn_rows-frame addrs (txn_row a s) x)
]

-- A transaction changes no row but those that its write set names.
pub body-frame :
    (b : Behaviour) (rows : Rows) (x : ℕ)
    → contains (writes b.cowns b.ws_cap) x ≡ false
    → body b rows x ≡ rows x
unfolding body
body-frame b rows x h =
    txn_rows-frame b.cowns (record { rows = rows; sum = 0; write_set_l = b.ws_cap }) x h

writes-contains :
    (addrs : List ℕ) (ws x : ℕ) → contains addrs x ≡ false → contains (writes addrs ws) x ≡ false
writes-contains [] ws x h = refl
writes-contains (a ∷ addrs) ws x h = ground (arith, writes-contains addrs (ws / 2) x)

pub txn_rows-frame_all :
    (addrs : List ℕ) (s : Locals) (x : ℕ)
    → contains addrs x ≡ false
    → (txn_rows addrs s).rows x ≡ s.rows x
txn_rows-frame_all addrs s x h = txn_rows-frame addrs s x (writes-contains addrs s.write_set_l x h)

pub body-frame_cowns :
    (b : Behaviour) (rows : Rows) (x : ℕ) → contains b.cowns x ≡ false → body b rows x ≡ rows x
body-frame_cowns b rows x h = body-frame b rows x (writes-contains b.cowns b.ws_cap x h)

module _ (P : ℕ → Type 0) where
  abbrev Agree : Locals → Locals → Type 0
  Agree s t =
      ((x : ℕ) → P x → s.rows x ≡ t.rows x) × (s.sum ≡ t.sum) × (s.write_set_l ≡ t.write_set_l)

  txn_row-Agree : (a : ℕ) (s t : Locals) → P a → Agree s t → Agree (txn_row a s) (txn_row a t)
  unfolding txn_row
  txn_row-Agree a s t pa (rows, sum, ws) =
      (λ x px. ground (arith, rows x px, rows a pa), ground (arith, rows a pa), ground arith)

  txn_rows-Agree :
      (addrs : List ℕ) (s t : Locals)
      → All P addrs
      → Agree s t
      → Agree (txn_rows addrs s) (txn_rows addrs t)
  unfolding txn_rows
  txn_rows-Agree [] s t h agree = agree
  txn_rows-Agree (a ∷ addrs) s t h agree =
      txn_rows-Agree addrs (txn_row a s) (txn_row a t) h.1 (txn_row-Agree a s t h.0 agree)

All-contains :
    (addrs more : List ℕ)
    → All (λ x. contains more x ≡ true) addrs
    → (a : ℕ) → All (λ x. contains (a ∷ more) x ≡ true) addrs
All-contains [] more h a = tt
All-contains (x ∷ addrs) more h a = (ground (arith, h.0), All-contains addrs more h.1 a)

contains_self : (addrs : List ℕ) → All (λ x. contains addrs x ≡ true) addrs
contains_self [] = tt
contains_self (a ∷ addrs) = (ground arith, All-contains addrs addrs (contains_self addrs) a)

body-Agree :
    (b : Behaviour) (r r' : Rows)
    → ((x : ℕ) → contains b.cowns x ≡ true → r x ≡ r' x)
    → (x : ℕ) → contains b.cowns x ≡ true
    → body b r x ≡ body b r' x
unfolding body
body-Agree b r r' agree x h =
    (txn_rows-Agree (λ y. contains b.cowns y ≡ true) b.cowns _ _ (contains_self b.cowns)
        (agree, refl, refl)).0
      x h

Disjoint-contains :
    (xs ys : List ℕ) (x : ℕ)
    → All (λ y. contains ys y ≡ false) xs
    → contains xs x ≡ true
    → contains ys x ≡ false
Disjoint-contains [] ys x d h = absurd (false≢true h)
Disjoint-contains (a ∷ xs) ys x d h = ground (arith, d.0, Disjoint-contains xs ys x d.1)

module _ (a b : Behaviour) (d : Disjoint a b) (rows : Rows) where
  -- Seen from a row of `a`, running `b` first makes no difference.
  body-first : (x : ℕ) → contains a.cowns x ≡ true → body b (body a rows) x ≡ body a (body b rows) x
  body-first x h =
      body-frame_cowns b (body a rows) x (Disjoint-contains a.cowns b.cowns x d h)
      ∙ body-Agree a rows (body b rows)
          (λ y hy. sym (body-frame_cowns b rows y (Disjoint-contains a.cowns b.cowns y d hy))) x h

  body-second :
      (x : ℕ) → contains a.cowns x ≡ false → body b (body a rows) x ≡ body a (body b rows) x
  body-second x h = elim (Bool-cases (contains b.cowns x)) [
    | inl hb ↦
        body-Agree b (body a rows) rows (λ y hy. body-frame_cowns a rows y (apart y hy)) x hb
        ∙ sym (body-frame_cowns a (body b rows) x h)
    | inr hb ↦
        body-frame_cowns b (body a rows) x hb
        ∙ body-frame_cowns a rows x h
        ∙ sym (body-frame_cowns a (body b rows) x h ∙ body-frame_cowns b rows x hb)
  ]
    where
      apart : (y : ℕ) → contains b.cowns y ≡ true → contains a.cowns y ≡ false
      apart y hy = elim (Bool-cases (contains a.cowns y)) [
        | inl ha ↦ absurd (false≢true (sym (Disjoint-contains a.cowns b.cowns y d ha) ∙ hy))
        | inr ha ↦ ha
      ]

-- Transactions that share no row leave the same rows in either order.
pub body-commute :
    (a b : Behaviour) (rows : Rows) → Disjoint a b → body b (body a rows) ≡ body a (body b rows)
body-commute a b rows d = fun_ext λ x. elim (Bool-cases (contains a.cowns x)) [
  | inl h ↦ body-first a b d rows x h
  | inr h ↦ body-second a b d rows x h
]
