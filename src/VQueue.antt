-- ===== src/VQueue.antt =====
-- vq.h: `vqueue<T>`, a vector with the operations of a queue whose items a client can move. The
-- type's `operator==` is the parameter `eq`, so two items may be equal to it and differ.
-- `none` stands for undefined behaviour: an access outside the vector.
pub mod Search
pub mod Moves
pub mod Items
pub mod Members
use servy.Prelude.{
  ℕ, zero, suc, ◌+◌, ◌-◌, Bool, true, false, List, [], ◌∷◌, ◌++◌, Option, none, some, length,
  get_elem?, set, ltb, ◌==◌, if◌then◌else◌,
}

module _ {ℓ} {A : Type ℓ} where
  -- iter_swap on two positions of the vector
  unfoldable pub iter_swap : ℕ → ℕ → List A → List A
  iter_swap i j q = elim (get_elem? q i) [
    | none ↦ q
    | some a ↦ elim (get_elem? q j) [ none ↦ q | some b ↦ set (set q i b) j a ]
  ]

  unfoldable pub add_item : List A → A → List A
  add_item q x = q ++ x ∷ []

  unfoldable pub front : List A → Option A
  front [] = none
  front (x ∷ q) = some x

  unfoldable pub pop_front : List A → Option (A × List A)
  pop_front [] = none
  pop_front (x ∷ q) = some (x, q)

  unfoldable pub empty : List A → Bool
  empty [] = true
  empty (x ∷ q) = false

  abbrev pub size : List A → ℕ
  size q = length q

  -- erase at the position found
  unfoldable pub erase_at : ℕ → List A → List A
  erase_at i [] = []
  erase_at zero (y ∷ q) = q
  erase_at (suc i) (y ∷ q) = y ∷ erase_at i q

module _ {ℓ} {A : Type ℓ} (eq : A → A → Bool) where
  -- std::find: the position of the first item equal to `x`, or of the end
  unfoldable pub find : A → List A → ℕ
  find x [] = 0
  find x (y ∷ q) = if eq y x then 0 else suc (find x q)

  unfoldable pub mvup : List A → A → List A
  mvup q x =
      let result = find x q in
      if result == length q then q else if result == 0 then q else iter_swap (result - 1) result q

  -- On an empty vector `end - 1` is no position.
  unfoldable pub mvdn : List A → A → Option (List A)
  mvdn [] x = none
  mvdn (y ∷ q) x =
      let result = find x (y ∷ q) in
      some
        (if ltb result (length (y ∷ q) - 1) then iter_swap (result + 1) result (y ∷ q) else y ∷ q)

  unfoldable pub rm_item : List A → A → List A
  rm_item q x = let result = find x q in if result == length q then q else erase_at result q
