-- ===== src/VQueue/Members.antt =====
-- vq.h: what holds of all items of a queue holds after every operation that moves or removes one.
use servy.Prelude.{◌≡◌, Bool, List, [], ◌∷◌, ◌++◌, Option, some, All, All-append}
use mathlib.Core.Path.{subst}
use servy.VQueue.{add_item, mvup, mvdn, rm_item}
use servy.VQueue.Moves.{MovedUp, MovedDown, mvup-MovedUp, mvdn-MovedDown}
use servy.VQueue.Items.{Removed, rm_item-Removed}

module _ {ℓ κ} {A : Type ℓ} (P : A → Type κ) where
  All-swap_next :
      (pre : List A) (a y : A) (post : List A)
      → All P (pre ++ a ∷ y ∷ post)
      → All P (pre ++ y ∷ a ∷ post)
  All-swap_next [] a y post h = (h.1.0, (h.0, h.1.1))
  All-swap_next (b ∷ pre) a y post h = (h.0, All-swap_next pre a y post h.1)

  pub All-remove :
      (pre : List A) (y : A) (post : List A) → All P (pre ++ y ∷ post) → All P (pre ++ post)
  All-remove [] y post h = h.1
  All-remove (b ∷ pre) y post h = (h.0, All-remove pre y post h.1)

  pub All-member : (pre : List A) (y : A) (post : List A) → All P (pre ++ y ∷ post) → P y
  All-member [] y post h = h.0
  All-member (b ∷ pre) y post h = All-member pre y post h.1

module _ {ℓ κ} {A : Type ℓ} (P : A → Type κ) (eq : A → A → Bool) where
  pub All-add_item : (q : List A) (x : A) → All P q → P x → All P (add_item q x)
  unfolding add_item
  All-add_item q x h p = All-append P q (x ∷ []) h (p, tt)

  after_MovedUp : (x : A) (q r : List A) → MovedUp eq x q r → All P q → All P r
  after_MovedUp x q r (MovedUp.missing h e) a = rw e a
  after_MovedUp x q r (MovedUp.at_front y post p h e) a = rw e a
  after_MovedUp x q r (MovedUp.up pre b y post p h hit e) a =
      rw e (All-swap_next P pre b y post (rw p at a))

  pub All-mvup : (q : List A) (x : A) → All P q → All P (mvup eq q x)
  All-mvup q x = after_MovedUp x q _ (mvup-MovedUp eq q x)

  after_MovedDown :
      (x : A) (q r : List A) (o : Option (List A))
      → MovedDown eq x q o
      → o ≡ some r
      → All P q
      → All P r
  after_MovedDown x q r o (MovedDown.undefined p e) h a = cc
  after_MovedDown x q r o (MovedDown.missing p b e) h a = subst (All P) (cc) a
  after_MovedDown x q r o (MovedDown.at_back pre y p b hit e) h a = subst (All P) (cc) a
  after_MovedDown x q r o (MovedDown.down pre y b post p c hit e) h a =
      subst (All P) (cc) (All-swap_next P pre y b post (rw p at a))

  pub All-mvdn : (q : List A) (x : A) (r : List A) → mvdn eq q x ≡ some r → All P q → All P r
  All-mvdn q x r = after_MovedDown x q r _ (mvdn-MovedDown eq q x)

  after_Removed : (x : A) (q r : List A) → Removed eq x q r → All P q → All P r
  after_Removed x q r (Removed.missing h e) a = rw e a
  after_Removed x q r (Removed.removed pre y post p h hit e) a =
      rw e (All-remove P pre y post (rw p at a))

  pub All-rm_item : (q : List A) (x : A) → All P q → All P (rm_item eq q x)
  All-rm_item q x = after_Removed x q _ (rm_item-Removed eq q x)
