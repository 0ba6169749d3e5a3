-- ===== src/VQueue/Items.antt =====
-- vq.h: what the operations add to the queue and take from it.
use mathlib.Core.List.{Perm}
use mathlib.Core.List.Perm
use servy.Prelude.{◌≡◌, refl, ap, Bool, true, List, [], ◌∷◌, ◌++◌, arith, length, length-append}
use servy.VQueue.{rm_item, erase_at, mvup}
use servy.VQueue.Search.{Absent, find-Absent, find_first, find_cases, not_found, found}
use servy.VQueue.Moves.{MovedUp, mvup-MovedUp}

module _ {ℓ} {A : Type ℓ} where
  erase_at-append :
      (pre : List A) (y : A) (post : List A) → erase_at (length pre) (pre ++ y ∷ post) ≡ pre ++ post
  unfolding erase_at
  erase_at-append [] y post = refl
  erase_at-append (a ∷ pre) y post = ap (◌∷◌ a) (erase_at-append pre y post)

module _ {ℓ} {A : Type ℓ} (eq : A → A → Bool) where
  -- The specification of `rm_item`: the first item equal to `x` goes, and no other.
  pub data Removed (x : A) (q r : List A) : Type ℓ where
    missing : Absent eq x q → r ≡ q → Removed x q r
    removed :
        (pre : List A) (y : A) (post : List A)
        → q ≡ pre ++ y ∷ post
        → Absent eq x pre
        → eq y x ≡ true
        → r ≡ pre ++ post
        → Removed x q r

  pub rm_item_first :
      (pre : List A) (y : A) (post : List A) (x : A)
      → Absent eq x pre
      → eq y x ≡ true
      → rm_item eq (pre ++ y ∷ post) x ≡ pre ++ post
  unfolding rm_item
  rm_item_first pre y post x h e = ground (
    arith,
    find_first eq x pre y post h e,
    length-append pre (y ∷ post),
    erase_at-append pre y post,
  )

  rm_item-Absent : (q : List A) (x : A) → Absent eq x q → rm_item eq q x ≡ q
  unfolding rm_item
  rm_item-Absent q x h = ground (arith, find-Absent eq x q h)

  -- `rm_item` meets its specification on every queue.
  pub rm_item-Removed : (q : List A) (x : A) → Removed x q (rm_item eq q x)
  rm_item-Removed q x = elim (find_cases eq x q) [
    | not_found h ↦ Removed.missing h (rm_item-Absent q x h)
    | found pre y post e h hit ↦
        Removed.removed pre y post e h hit (rw e (rm_item_first pre y post x h hit))
  ]

  swap_perm :
      (pre : List A) (a y : A) (post : List A) → Perm (pre ++ y ∷ a ∷ post) (pre ++ a ∷ y ∷ post)
  swap_perm pre a y post = Perm.append_left pre (Perm.swap a y post)

  MovedUp-perm : (x : A) (q r : List A) → MovedUp eq x q r → Perm r q
  MovedUp-perm x q r (MovedUp.missing h e) = rw e (Perm.refl q)
  MovedUp-perm x q r (MovedUp.at_front y post p h e) = rw e (Perm.refl q)
  MovedUp-perm x q r (MovedUp.up pre a y post p h hit e) = rw (e, p) (swap_perm pre a y post)

  -- Moving an item up loses no item and makes none up.
  pub mvup-perm : (q : List A) (x : A) → Perm (mvup eq q x) q
  mvup-perm q x = MovedUp-perm x q _ (mvup-MovedUp eq q x)
