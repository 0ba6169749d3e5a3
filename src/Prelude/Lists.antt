-- ===== src/Prelude/Lists.antt =====
-- Lists measured and indexed by native numbers, and predicates on their members.
use Prim.Native.Nat.{ℕ, zero, suc, ◌+◌}
use mathlib.Core.Path.{◌≡◌, refl}
use mathlib.Core.List.{List, [], ◌∷◌, ◌++◌, map}
use mathlib.Core.Option.{Option, none, some}
use native.Mathlib.Omega.{arith}

module _ {ℓ} {A : Type ℓ} where
  abbrev pub length : List A → ℕ
  length [] = 0
  length (x ∷ xs) = suc (length xs)

  abbrev pub get_elem? : List A → ℕ → Option A
  get_elem? [] i = none
  get_elem? (x ∷ xs) zero = some x
  get_elem? (x ∷ xs) (suc i) = get_elem? xs i

  -- A write out of bounds changes nothing.
  abbrev pub set : List A → ℕ → A → List A
  set [] i v = []
  set (x ∷ xs) zero v = v ∷ xs
  set (x ∷ xs) (suc i) v = x ∷ set xs i v

  pub length-append : (xs ys : List A) → length (xs ++ ys) ≡ length xs + length ys
  length-append [] ys = omega arith
  length-append (x ∷ xs) ys = omega (arith, length-append xs ys)

module _ {ℓ κ} {A : Type ℓ} where
  -- `P` holds of every member.
  abbrev pub All : (A → Type κ) → List A → Type κ
  All P [] = Unit
  All P (x ∷ xs) = P x × All P xs

  pub All-append : (P : A → Type κ) (xs ys : List A) → All P xs → All P ys → All P (xs ++ ys)
  All-append P [] ys hx hy = hy
  All-append P (x ∷ xs) ys hx hy = (hx.0, All-append P xs ys hx.1 hy)

  pub All-append_left : (P : A → Type κ) (xs ys : List A) → All P (xs ++ ys) → All P xs
  All-append_left P [] ys h = tt
  All-append_left P (x ∷ xs) ys h = (h.0, All-append_left P xs ys h.1)

  pub All-append_right : (P : A → Type κ) (xs ys : List A) → All P (xs ++ ys) → All P ys
  All-append_right P [] ys h = h
  All-append_right P (x ∷ xs) ys h = All-append_right P xs ys h.1

module _ {ℓ κ λ'} {A : Type ℓ} (P : A → Type κ) (Q : A → Type λ') where
  pub All-mono : (xs : List A) → ((a : A) → P a → Q a) → All P xs → All Q xs
  All-mono [] f h = tt
  All-mono (x ∷ xs) f h = (f x h.0, All-mono xs f h.1)

module _ {ℓ κ λ' μ} {A : Type ℓ} (P : A → Type κ) (R : A → Type μ) (Q : A → Type λ') where
  pub All-map₂ :
      (g : A → A) (xs : List A)
      → ((a : A) → P a → R a → Q (g a))
      → All P xs
      → All R xs
      → All Q (map g xs)
  All-map₂ g [] f h k = tt
  All-map₂ g (x ∷ xs) f h k = (f x h.0 k.0, All-map₂ g xs f h.1 k.1)

module _ {ℓ κ λ' μ} {A : Type ℓ} (P : A → Type κ) (R : A → Type μ) (Q : A → Type λ') where
  pub All-mono₂ : (xs : List A) → ((a : A) → P a → R a → Q a) → All P xs → All R xs → All Q xs
  All-mono₂ [] f h k = tt
  All-mono₂ (x ∷ xs) f h k = (f x h.0 k.0, All-mono₂ xs f h.1 k.1)

module _ {ℓ κ μ} {A : Type ℓ} {B : Type κ} (R : A → B → Type μ) where
  All-cons :
      (b : B) (as' : List A) (bs : List B)
      → All (λ a. R a b) as'
      → All (λ a. All (R a) bs) as'
      → All (λ a. All (R a) (b ∷ bs)) as'
  All-cons b [] bs h k = tt
  All-cons b (a ∷ as') bs h k = ((h.0, k.0), All-cons b as' bs h.1 k.1)

  All-nil : (as' : List A) → All (λ a. All (R a) []) as'
  All-nil [] = tt
  All-nil (a ∷ as') = (tt, All-nil as')

  -- The two ways to say that `R` holds between all members of two lists.
  pub All-swap :
      (as' : List A) (bs : List B)
      → All (λ b. All (λ a. R a b) as') bs
      → All (λ a. All (R a) bs) as'
  All-swap as' [] h = All-nil as'
  All-swap as' (b ∷ bs) h = All-cons b as' bs h.0 (All-swap as' bs h.1)

-- A list of one item, taken apart at an item.
pub only_member {ℓ} :
    {A : Type ℓ} (a b : A) (xs pre post : List A)
    → xs ≡ a ∷ []
    → xs ≡ pre ++ b ∷ post
    → (a ≡ b) × (pre ≡ []) × (post ≡ [])
only_member a b xs [] post e h = (cc, refl, cc)
only_member a b xs (x ∷ []) post e h = cc
only_member a b xs (x ∷ y ∷ pre) post e h = cc

pub no_member {ℓ} : {A : Type ℓ} (b : A) (xs pre post : List A) → xs ≡ [] → xs ≡ pre ++ b ∷ post → ⊥
no_member b xs [] post e h = cc
no_member b xs (x ∷ pre) post e h = cc
