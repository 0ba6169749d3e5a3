-- ===== src/MachineList/Bounds.antt =====
-- The numbers of cores that `get_machines` reads (machine.h).
use servy.Prelude.{
  ℕ, ◌-◌, ◌^◌, ◌≡◌, ◌≤◌, Bool, true, false, Bool-cases, inl, inr, refl, List, [], ◌∷◌, some, arith,
  leb, ◌==◌, All, bound_some, if◌then◌else◌,
}
use mathlib.Core.Path.{subst}
use mathlib.Core.Option.{some-injective}
use servy.Prelude.Int.{ℤ, pos, negsuc, ◌≤ℤ◌, ◌-ℤ◌, int_laws}
use servy.Prelude.Text.{Text}
use servy.Machine.{Machine}
use servy.MachineList.{
  blank_colons, read_word, skip_spaces, read_number, at_most_max, at_least_min, read_int, first_int,
  machine_of, machines_of, get_machines, split,
}

-- A value of type `int`.
pub record IsInt (z : ℤ) : Type 0 where
  pub lower : negsuc (2 ^ 31 - 1) ≤ℤ z
  pub upper : z ≤ℤ pos (2 ^ 31 - 1)

at_most_max-IsInt : (n : ℕ) → IsInt (at_most_max n)
at_most_max-IsInt n = record { lower = ground arith; upper = ground arith }

negated-IsInt : (n : ℕ) → n ≤ 2 ^ 31 → IsInt (pos 0 -ℤ pos n)
negated-IsInt n h = record { lower = omega int_laws; upper = omega int_laws }

at_least_min-IsInt : (n : ℕ) → IsInt (at_least_min n)
at_least_min-IsInt n = elim (Bool-cases (leb n (2 ^ 31))) [
  | inl e ↦ rw e (negated-IsInt n (ground arith))
  | inr e ↦ rw e (negated-IsInt (2 ^ 31) (omega arith))
]

IsInt-if : (b : Bool) (x y : ℤ) → IsInt x → IsInt y → IsInt (if b then x else y)
IsInt-if true x y h k = h
IsInt-if false x y h k = k

read_number-IsInt : (c : ℕ) (s : Text) → IsInt (read_number c s)
unfolding read_number
read_number-IsInt c s =
    IsInt-if (c == b'-') _ _ (at_least_min-IsInt _)
      (IsInt-if (c == b'+') _ _ (at_most_max-IsInt _) (at_most_max-IsInt _))

first_int-IsInt : (s : Text) (z : ℤ) → first_int s ≡ some z → IsInt z
first_int-IsInt [] z h = cc
first_int-IsInt (c ∷ s) z h = subst IsInt (some-injective _ _ h) (read_number-IsInt c s)

-- A machine that is new: none of its cores is reserved, and its size is an `int`.
pub record IsRead (m : Machine) : Type 0 where
  pub size_fits : IsInt m.size
  pub unreserved : m.res ≡ pos 0
  pub all_free : m.free ≡ m.size

machine_of-IsRead : (s : Text) (m : Machine) → machine_of s ≡ some m → IsRead m
unfolding machine_of read_int
machine_of-IsRead s m h =
    let ((name, ss), _, h₁) = bound_some (read_word (blank_colons s)) _ m h in
    let (z, e, h₂) = bound_some (read_int ss) _ m h₁ in
    subst IsRead (some-injective _ _ h₂) (record {
      size_fits = first_int-IsInt (skip_spaces ss) z e;
      unreserved = refl;
      all_free = refl;
    })

machines_of-IsRead : (vs : List Text) (ms : List Machine) → machines_of vs ≡ some ms → All IsRead ms
unfolding machines_of
machines_of-IsRead [] ms h = subst (All IsRead) (some-injective _ _ h) tt
machines_of-IsRead (s ∷ vs) ms h =
    let (m, e, h₁) = bound_some (machine_of s) _ ms h in
    let (rest, e', h₂) = bound_some (machines_of vs) _ ms h₁ in
    subst (All IsRead) (some-injective _ _ h₂)
      (machine_of-IsRead s m e, machines_of-IsRead vs rest e')

-- Whatever the text is, the machines that are read from it have sizes in the range of `int` and all
-- of their cores free.
pub get_machines-IsRead :
    (mstring : Text) (ms : List Machine) → get_machines mstring ≡ some ms → All IsRead ms
unfolding get_machines
get_machines-IsRead mstring ms h = machines_of-IsRead (split mstring b',') ms h
