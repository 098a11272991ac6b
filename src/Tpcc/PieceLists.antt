-- ===== src/Tpcc/PieceLists.antt =====
-- Sequences of the steps of a new order of app/tpcc.cc.
use doradd_storage.Base.{
  ℕ, ◌≡◌, refl, sym, ◌∙◌, List, [], ◌∷◌, ◌++◌, All, Option, none, some, arith, inl, inr,
  Option-cases,
}
use doradd_storage.Tpcc.Partial.{
  bind, followed, Commute, bind_assoc, bind-ext, Commute-sym, Commute-followed,
}
use doradd_storage.Tpcc.Rows.{Floats, Rows}
use doradd_storage.Tpcc.Pieces.{
  Piece, take, stocked, lined, ordered, new_ordered, counting, perform, Apart, perform-Commute,
}

module _ (f : Floats) where
  abbrev pub perform_all : List (Piece f) → Rows f → Option (Rows f)
  perform_all [] r = some r
  perform_all (p ∷ ps) r = followed (perform f p) (perform_all ps) r

  pub bind-some : (x : Option (Rows f)) → bind x some ≡ x
  bind-some none = refl
  bind-some (some r) = refl

  perform-Commute_all :
      (p : (Piece f)) (qs : List (Piece f))
      → All (Apart f p) qs
      → Commute (perform f p) (perform_all qs)
  perform-Commute_all p [] h r = bind-some (perform f p r)
  perform-Commute_all p (q ∷ qs) (h, hs) r =
      Commute-followed (perform f p) (perform f q) (perform_all qs) (perform-Commute f p q h)
        (perform-Commute_all p qs hs) r

  -- Two sequences of steps change places, if each step of the one is apart from each of the other.
  pub perform_all-Commute :
      (ps qs : List (Piece f))
      → All (λ p. All (Apart f p) qs) ps
      → Commute (perform_all ps) (perform_all qs)
  perform_all-Commute [] qs h r = sym (bind-some (perform_all qs r))
  perform_all-Commute (p ∷ ps) qs (h, hs) r =
      Commute-sym (perform_all qs) (followed (perform f p) (perform_all ps))
        (Commute-followed (perform_all qs) (perform f p) (perform_all ps)
          (Commute-sym (perform f p) (perform_all qs) (perform-Commute_all p qs h))
          (Commute-sym (perform_all ps) (perform_all qs) (perform_all-Commute ps qs hs)))
        r

  pub perform_all-append :
      (ps qs : List (Piece f)) (r : Rows f)
      → perform_all (ps ++ qs) r ≡ bind (perform_all ps r) (perform_all qs)
  perform_all-append [] qs r = refl
  perform_all-append (p ∷ ps) qs r =
      bind-ext (perform f p r) (perform_all (ps ++ qs)) (followed (perform_all ps) (perform_all qs))
        (λ r' e. perform_all-append ps qs r')
      ∙ sym (bind_assoc (perform f p r) (perform_all ps) (perform_all qs))

  perform-districts :
      (p : (Piece f)) (d : ℕ) (r r' : Rows f)
      → Apart f p (take d)
      → perform f p r ≡ some r'
      → r'.districts d ≡ r.districts d
  perform-districts (take d') d r r' h e = ground arith
  perform-districts (stocked s g) d r r' h e = ground arith
  perform-districts (lined k c) d r r' h e = ground arith
  perform-districts (ordered k c) d r r' h e = ground arith
  perform-districts (new_ordered k c) d r r' h e = ground arith
  perform-districts counting d r r' h e = ground arith

  -- Steps apart from a district leave it alone.
  pub perform_all-districts :
      (ps : List (Piece f)) (d : ℕ) (r r' : Rows f)
      → All (λ p. Apart f p (take d)) ps
      → perform_all ps r ≡ some r'
      → r'.districts d ≡ r.districts d
  perform_all-districts [] d r r' h e = ground arith
  perform_all-districts (p ∷ ps) d r r' (h, hs) e = elim (Option-cases (perform f p r)) [
    | inl none_ ↦ absurd (let e' = (rw none_ at e) in cc)
    | inr (r1, some_) ↦
        perform_all-districts ps d r1 r' hs (rw some_ at e) ∙ perform-districts p d r r1 h some_
  ]
