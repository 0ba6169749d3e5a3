-- ===== src/VQueue/Moves.antt =====
-- What `mvup` and `mvdn` of vq.h do to the order of the items.
use servy.Prelude.{
  ℕ, suc, ◌≡◌, refl, ap, sym, ◌∙◌, ◌⊎◌, ◌≢◌, inl, inr, Bool, true, false, List, [], ◌∷◌, ◌++◌,
  Option, none, some, arith, All-append_left, length, length-append,
}
use servy.VQueue.{find, iter_swap, mvup, mvdn}
use servy.VQueue.Search.{Absent, find-Absent, find_first, not_found, found, find_cases}

module _ {ℓ} {A : Type ℓ} where
  iter_swap-cons :
      (i j : ℕ) (x : A) (q : List A) → iter_swap (suc i) (suc j) (x ∷ q) ≡ x ∷ iter_swap i j q
  unfolding iter_swap
  iter_swap-cons i j x q = ground arith

  swap_up :
      (pre : List A) (y z : A) (post : List A)
      → iter_swap (length pre) (suc (length pre)) (pre ++ y ∷ z ∷ post) ≡ pre ++ z ∷ y ∷ post
  unfolding iter_swap
  swap_up [] y z post = refl
  swap_up (x ∷ pre) y z post =
      iter_swap-cons _ _ x (pre ++ y ∷ z ∷ post) ∙ ap (◌∷◌ x) (swap_up pre y z post)

  swap_down :
      (pre : List A) (y z : A) (post : List A)
      → iter_swap (suc (length pre)) (length pre) (pre ++ y ∷ z ∷ post) ≡ pre ++ z ∷ y ∷ post
  unfolding iter_swap
  swap_down [] y z post = refl
  swap_down (x ∷ pre) y z post =
      iter_swap-cons _ _ x (pre ++ y ∷ z ∷ post) ∙ ap (◌∷◌ x) (swap_down pre y z post)

module _ {ℓ} {A : Type ℓ} (eq : A → A → Bool) where
  -- The specification of `mvup`: the first item equal to `x` changes places with the one before it.
  pub data MovedUp (x : A) (q r : List A) : Type ℓ where
    missing : Absent eq x q → r ≡ q → MovedUp x q r
    at_front : (y : A) (post : List A) → q ≡ y ∷ post → eq y x ≡ true → r ≡ q → MovedUp x q r
    up :
        (pre : List A) (a y : A) (post : List A)
        → q ≡ pre ++ a ∷ y ∷ post
        → Absent eq x (pre ++ a ∷ [])
        → eq y x ≡ true
        → r ≡ pre ++ y ∷ a ∷ post
        → MovedUp x q r

  -- The specification of `mvdn`: that item changes places with the one after it.
  pub data MovedDown (x : A) (q : List A) (r : Option (List A)) : Type ℓ where
    undefined : q ≡ [] → r ≡ none → MovedDown x q r
    missing : q ≢ [] → Absent eq x q → r ≡ some q → MovedDown x q r
    at_back :
        (pre : List A) (y : A)
        → q ≡ pre ++ y ∷ []
        → Absent eq x pre
        → eq y x ≡ true
        → r ≡ some q
        → MovedDown x q r
    down :
        (pre : List A) (y a : A) (post : List A)
        → q ≡ pre ++ y ∷ a ∷ post
        → Absent eq x pre
        → eq y x ≡ true
        → r ≡ some (pre ++ a ∷ y ∷ post)
        → MovedDown x q r

  mvup-Absent : (q : List A) (x : A) → Absent eq x q → mvup eq q x ≡ q
  unfolding mvup
  mvup-Absent q x h = ground (arith, find-Absent eq x q h)

  mvup_front : (y : A) (post : List A) (x : A) → eq y x ≡ true → mvup eq (y ∷ post) x ≡ y ∷ post
  unfolding mvup
  mvup_front y post x e = ground (arith, find_first eq x [] y post tt e)

  append_snoc : (pre : List A) (a : A) (rest : List A) → (pre ++ a ∷ []) ++ rest ≡ pre ++ a ∷ rest
  append_snoc [] a rest = refl
  append_snoc (x ∷ pre) a rest = ap (◌∷◌ x) (append_snoc pre a rest)

  find_after :
      (x : A) (pre : List A) (a y : A) (post : List A)
      → Absent eq x (pre ++ a ∷ [])
      → eq y x ≡ true
      → find eq x (pre ++ a ∷ y ∷ post) ≡ suc (length pre)
  find_after x pre a y post h e =
      ap (find eq x) (sym (append_snoc pre a (y ∷ post)))
      ∙ find_first eq x (pre ++ a ∷ []) y post h e
      ∙ omega (arith, length-append pre (a ∷ []))

  pub mvup_up :
      (pre : List A) (a y : A) (post : List A) (x : A)
      → Absent eq x (pre ++ a ∷ [])
      → eq y x ≡ true
      → mvup eq (pre ++ a ∷ y ∷ post) x ≡ pre ++ y ∷ a ∷ post
  unfolding mvup
  mvup_up pre a y post x h e =
      ground (
        arith,
        find_after x pre a y post h e,
        length-append pre (a ∷ y ∷ post),
        swap_up pre a y post,
      )

  pub mvdn_down :
      (pre : List A) (y a : A) (post : List A) (x : A)
      → Absent eq x pre
      → eq y x ≡ true
      → mvdn eq (pre ++ y ∷ a ∷ post) x ≡ some (pre ++ a ∷ y ∷ post)
  unfolding mvdn
  mvdn_down [] y a post x h e =
      ground (arith, find_first eq x [] y (a ∷ post) h e, swap_down [] y a post)
  mvdn_down (b ∷ pre) y a post x h e = ground (
    arith,
    find_first eq x (b ∷ pre) y (a ∷ post) h e,
    length-append pre (y ∷ a ∷ post),
    swap_down (b ∷ pre) y a post,
  )

  mvdn_back :
      (pre : List A) (y : A) (x : A)
      → Absent eq x pre
      → eq y x ≡ true
      → mvdn eq (pre ++ y ∷ []) x ≡ some (pre ++ y ∷ [])
  unfolding mvdn
  mvdn_back [] y x h e = ground (arith, find_first eq x [] y [] h e)
  mvdn_back (b ∷ pre) y x h e =
      ground (arith, find_first eq x (b ∷ pre) y [] h e, length-append pre (y ∷ []))

  mvdn-Absent :
      (b : A) (q : List A) (x : A) → Absent eq x (b ∷ q) → mvdn eq (b ∷ q) x ≡ some (b ∷ q)
  unfolding mvdn
  mvdn-Absent b q x h = ground (arith, find-Absent eq x (b ∷ q) h)

  snoc-cases : (pre : List A) → (pre ≡ []) ⊎ ((p : List A) × (a : A) × (pre ≡ p ++ a ∷ []))
  snoc-cases [] = inl refl
  snoc-cases (b ∷ pre) = elim (snoc-cases pre) [
    | inl e ↦ inr ([], b, ap (◌∷◌ b) e)
    | inr (p, a, e) ↦ inr (b ∷ p, a, ap (◌∷◌ b) e)
  ]

  -- `mvup` meets its specification on every queue.
  pub mvup-MovedUp : (q : List A) (x : A) → MovedUp x q (mvup eq q x)
  mvup-MovedUp q x = elim (find_cases eq x q) [
    | not_found h ↦ MovedUp.missing h (mvup-Absent q x h)
    | found pre y post e h hit ↦ elim (snoc-cases pre) [
      | inl none_before ↦
          let e' : q ≡ y ∷ post = rw none_before at e in
          MovedUp.at_front y post e' hit (rw e' (mvup_front y post x hit))
      | inr (p, a, e₂) ↦
          let e' : q ≡ p ++ a ∷ y ∷ post =
            e ∙ ap (λ (l : List A). l ++ y ∷ post) e₂ ∙ append_snoc p a (y ∷ post) in
          let h' : Absent eq x (p ++ a ∷ []) = rw e₂ at h in
          MovedUp.up p a y post e' h' hit (rw e' (mvup_up p a y post x h' hit))
    ]
  ]

  mvdn_found :
      (q : List A) (x : A) (pre : List A) (y : A) (post : List A)
      → q ≡ pre ++ y ∷ post
      → Absent eq x pre
      → eq y x ≡ true
      → MovedDown x q (mvdn eq q x)
  mvdn_found q x pre y [] e h hit = MovedDown.at_back pre y e h hit (rw e (mvdn_back pre y x h hit))
  mvdn_found q x pre y (a ∷ post) e h hit =
      MovedDown.down pre y a post e h hit (rw e (mvdn_down pre y a post x h hit))

  mvdn_missing : (q : List A) (x : A) → Absent eq x q → MovedDown x q (mvdn eq q x)
  unfolding mvdn
  mvdn_missing [] x h = MovedDown.undefined refl refl
  mvdn_missing (b ∷ q) x h = MovedDown.missing (λ e. cc e) h (mvdn-Absent b q x h)

  -- `mvdn` meets its specification on every queue.
  pub mvdn-MovedDown : (q : List A) (x : A) → MovedDown x q (mvdn eq q x)
  mvdn-MovedDown q x = elim (find_cases eq x q) [
    | not_found h ↦ mvdn_missing q x h
    | found pre y post e h hit ↦ mvdn_found q x pre y post e h hit
  ]

  -- Moving an item up and then down again leaves the queue as it was.
  pub mvdn-mvup :
      (q : List A) (x : A) (pre : List A) (a y : A) (post : List A)
      → q ≡ pre ++ a ∷ y ∷ post
      → Absent eq x (pre ++ a ∷ [])
      → eq y x ≡ true
      → mvdn eq (mvup eq q x) x ≡ some q
  mvdn-mvup q x pre a y post e h hit =
      rw (e, mvup_up pre a y post x h hit)
        (mvdn_down pre y a post x (All-append_left (λ b. eq b x ≡ false) pre (a ∷ []) h) hit)
