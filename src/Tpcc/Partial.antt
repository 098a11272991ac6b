-- ===== src/Tpcc/Partial.antt =====
-- Operations on rows that may throw, one after the other, and when two of them may change places.
use doradd_storage.Base.{◌≡◌, refl, ap, sym, ◌∙◌, Option, none, some}

module _ {S : Type 0} where
  -- The next operation, unless the last one has thrown.
  abbrev pub bind : Option S → (S → Option S) → Option S
  bind none p = none
  bind (some s) p = p s

  abbrev pub followed : (S → Option S) → (S → Option S) → S → Option S
  followed p q s = bind (p s) q

  abbrev pub Commute : (S → Option S) → (S → Option S) → Type 0
  Commute p q = (s : S) → followed p q s ≡ followed q p s

  pub bind_assoc : (x : Option S) (p q : S → Option S) → bind (bind x p) q ≡ bind x (followed p q)
  bind_assoc none p q = refl
  bind_assoc (some s) p q = refl

  pub bind-ext :
      (x : Option S) (p q : S → Option S) → ((s : S) → x ≡ some s → p s ≡ q s) → bind x p ≡ bind x q
  bind-ext none p q same = refl
  bind-ext (some s) p q same = same s refl

  pub Commute-sym : (p q : S → Option S) → Commute p q → Commute q p
  Commute-sym p q h s = sym (h s)

  pub Commute-followed :
      (p q q' : S → Option S) → Commute p q → Commute p q' → Commute p (followed q q')
  Commute-followed p q q' h h' s =
      sym (bind_assoc (p s) q q')
      ∙ ap (λ x. bind x q') (h s)
      ∙ bind_assoc (q s) p q'
      ∙ bind-ext (q s) (followed p q') (followed q' p) (λ s' e. h' s')
      ∙ sym (bind_assoc (q s) q' p)
