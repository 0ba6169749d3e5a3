-- ===== src/TsQueue.antt =====
-- net_tsqueue.h: `tsqueue<T>`, a deque behind a mutex. Each operation holds the mutex throughout,
-- so it is one step on the deque. `none` stands for undefined behaviour: the end of an empty deque.
pub mod Wait
use servy.Prelude.{ℕ, Bool, true, false, List, [], ◌∷◌, ◌++◌, Option, none, some, length}

module _ {ℓ} {A : Type ℓ} where
  unfoldable pub front : List A → Option A
  front [] = none
  front (x ∷ q) = some x

  unfoldable pub back : List A → Option A
  back [] = none
  back (x ∷ []) = some x
  back (x ∷ y ∷ q) = back (y ∷ q)

  unfoldable pub pop_front : List A → Option (A × List A)
  pop_front [] = none
  pop_front (x ∷ q) = some (x, q)

  -- The items before the last, and the last one.
  unfoldable pub pop_back : List A → Option (A × List A)
  pop_back [] = none
  pop_back (x ∷ []) = some (x, [])
  pop_back (x ∷ y ∷ q) = elim (pop_back (y ∷ q)) [
    | none ↦ none
    | some (last, rest) ↦ some (last, x ∷ rest)
  ]

  abbrev pub push_back : List A → A → List A
  push_back q item = q ++ item ∷ []

  abbrev pub push_front : List A → A → List A
  push_front q item = item ∷ q

  abbrev pub empty : List A → Bool
  empty [] = true
  empty (x ∷ q) = false

  abbrev pub count : List A → ℕ
  count q = length q

  abbrev pub clear : List A → List A
  clear q = []
