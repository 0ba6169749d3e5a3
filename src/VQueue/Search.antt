-- ===== src/VQueue/Search.antt =====
-- vq.h: what `std::find` finds with the `operator==` of the items.
use servy.Prelude.{
  suc, ◌≡◌, refl, ap, inl, inr, Bool, true, false, List, [], ◌∷◌, ◌++◌, All, length, Bool-cases,
}
use servy.VQueue.{find}

module _ {ℓ} {A : Type ℓ} (eq : A → A → Bool) where
  -- No item of the list is equal to `x`.
  abbrev pub Absent : A → List A → Type 0
  Absent x q = All (λ y. eq y x ≡ false) q

  pub find-Absent : (x : A) (q : List A) → Absent x q → find eq x q ≡ length q
  unfolding find
  find-Absent x [] h = refl
  find-Absent x (y ∷ q) h = rw h.0 (ap suc (find-Absent x q h.1))

  pub find_first :
      (x : A) (pre : List A) (y : A) (post : List A)
      → Absent x pre
      → eq y x ≡ true
      → find eq x (pre ++ y ∷ post) ≡ length pre
  unfolding find
  find_first x [] y post h e = rw e
  find_first x (a ∷ pre) y post h e = rw h.0 (ap suc (find_first x pre y post h.1 e))

  -- Where the first item equal to `x` stands.
  pub data Search (x : A) (q : List A) : Type ℓ where
    not_found : Absent x q → Search x q
    found :
        (pre : List A) (y : A) (post : List A)
        → q ≡ pre ++ y ∷ post
        → Absent x pre
        → eq y x ≡ true
        → Search x q

  Search-cons : (x a : A) (q : List A) → eq a x ≡ false → Search x q → Search x (a ∷ q)
  Search-cons x a q e (not_found h) = not_found (e, h)
  Search-cons x a q e (found pre y post p h hit) = found (a ∷ pre) y post (ap (◌∷◌ a) p) (e, h) hit

  pub find_cases : (x : A) (q : List A) → Search x q
  find_cases x [] = not_found tt
  find_cases x (a ∷ q) = elim (Bool-cases (eq a x)) [
    | inl hit ↦ found [] a q refl tt hit
    | inr miss ↦ Search-cons x a q miss (find_cases x q)
  ]
