-- ===== src/Cluster/Demand.antt =====
-- How many cores a request takes of a machine, and when the loops of cluster.h take exactly that.
use servy.Prelude.{
  ◌≡◌, refl, ap, sym, ◌∙◌, inl, inr, false, List, [], ◌∷◌, arith, All, Bool-cases, if◌then◌else◌,
}
use servy.Prelude.Int.{ℤ, pos, ◌+ℤ◌, ◌-ℤ◌, ◌≤ℤ◌, int_laws, pos_part, neg_part}
use servy.Prelude.Text.{Text, str_eq, eq_of_str_eq}
use servy.Machine.{Machine}
use servy.Machine.Accounting.{IsValid, reserved, returned, alloc_granted, free_granted}
use servy.Cluster.{alloc_on, free_on}
use servy.Cluster.Fits.{FitsAll}
use servy.Cluster.Reserve.{alloc_lines, free_lines}

-- The sum of the lines that name the machine.
unfoldable pub demand : Text → List Machine → ℤ
demand name [] = pos 0
demand name (rm ∷ rms) = if str_eq rm.name name then rm.size +ℤ demand name rms else demand name rms

abbrev pub NonNeg : List Machine → Type 0
NonNeg rms = All (λ rm. pos 0 ≤ℤ rm.size) rms

-- No two lines of the request name one machine.
abbrev pub Distinct : List Machine → Type 0
Distinct [] = Unit {0}
Distinct (rm ∷ rms) = All (λ r. str_eq r.name rm.name ≡ false) rms × Distinct rms

pub demand_nonneg : (name : Text) (rms : List Machine) → NonNeg rms → pos 0 ≤ℤ demand name rms
unfolding demand
demand_nonneg name [] h = omega arith
demand_nonneg name (rm ∷ rms) h = elim (Bool-cases (str_eq rm.name name)) [
  | inl same ↦ let ih = demand_nonneg name rms h.1 in rw same (omega int_laws)
  | inr other ↦ rw other (demand_nonneg name rms h.1)
]

reserved-zero : (m : Machine) → reserved m (pos 0) ≡ m
reserved-zero m = λ i. record m { res = p i; free = q i }
  where
    p : m.res +ℤ pos 0 ≡ m.res
    p = omega int_laws

    q : m.free -ℤ pos 0 ≡ m.free
    q = omega int_laws

reserved-reserved : (m : Machine) (a b : ℤ) → reserved (reserved m a) b ≡ reserved m (a +ℤ b)
reserved-reserved m a b = λ i. record m { res = p i; free = q i }
  where
    p : m.res +ℤ a +ℤ b ≡ m.res +ℤ (a +ℤ b)
    p = omega int_laws

    q : m.free -ℤ a -ℤ b ≡ m.free -ℤ (a +ℤ b)
    q = omega int_laws

returned-zero : (m : Machine) → returned m (pos 0) ≡ m
returned-zero m = λ i. record m { res = p i; free = q i }
  where
    p : m.res -ℤ pos 0 ≡ m.res
    p = omega int_laws

    q : m.free +ℤ pos 0 ≡ m.free
    q = omega int_laws

returned-returned : (m : Machine) (a b : ℤ) → returned (returned m a) b ≡ returned m (a +ℤ b)
returned-returned m a b = λ i. record m { res = p i; free = q i }
  where
    p : m.res -ℤ a -ℤ b ≡ m.res -ℤ (a +ℤ b)
    p = omega int_laws

    q : m.free +ℤ a +ℤ b ≡ m.free +ℤ (a +ℤ b)
    q = omega int_laws

-- Where the demand is free, the loop grants every line.
pub alloc_lines_granted :
    (rms : List Machine) (cm : Machine)
    → NonNeg rms
    → demand cm.name rms ≤ℤ cm.free
    → alloc_lines rms cm ≡ reserved cm (demand cm.name rms)
unfolding demand alloc_lines alloc_on
alloc_lines_granted [] cm p h = sym (reserved-zero cm)
alloc_lines_granted (rm ∷ rms) cm p h = elim (Bool-cases (str_eq rm.name cm.name)) [
  | inl same ↦
      let rest = demand_nonneg cm.name rms p.1 in
      let d : rm.size +ℤ demand cm.name rms ≤ℤ cm.free = rw same at h in
      let first : rm.size ≤ℤ cm.free = omega int_laws in
      rw (same, alloc_granted cm rm.size first)
        (alloc_lines_granted rms (reserved cm rm.size) p.1 (omega int_laws)
          ∙ reserved-reserved cm rm.size (demand cm.name rms))
  | inr other ↦ rw other (alloc_lines_granted rms cm p.1 (rw other at h))
]

-- Where the demand is reserved, the loop returns every line.
pub free_lines_granted :
    (rms : List Machine) (cm : Machine)
    → NonNeg rms
    → demand cm.name rms ≤ℤ cm.res
    → free_lines rms cm ≡ returned cm (demand cm.name rms)
unfolding demand free_lines free_on
free_lines_granted [] cm p h = sym (returned-zero cm)
free_lines_granted (rm ∷ rms) cm p h = elim (Bool-cases (str_eq rm.name cm.name)) [
  | inl same ↦
      let rest = demand_nonneg cm.name rms p.1 in
      let d : rm.size +ℤ demand cm.name rms ≤ℤ cm.res = rw same at h in
      let first : rm.size ≤ℤ cm.res = omega int_laws in
      rw (same, free_granted cm rm.size first)
        (free_lines_granted rms (returned cm rm.size) p.1 (omega int_laws)
          ∙ returned-returned cm rm.size (demand cm.name rms))
  | inr other ↦ rw other (free_lines_granted rms cm p.1 (rw other at h))
]

demand_absent :
    (name : Text) (rms : List Machine)
    → All (λ r. str_eq r.name name ≡ false) rms
    → demand name rms ≡ pos 0
unfolding demand
demand_absent name [] h = refl
demand_absent name (rm ∷ rms) h = rw h.0 (demand_absent name rms h.1)

-- With distinct names, a request whose lines fit a machine demands no more than it has free.
pub demand_fits :
    (rms : List Machine) (cm : Machine)
    → Distinct rms
    → IsValid cm
    → FitsAll rms cm
    → demand cm.name rms ≤ℤ cm.free
unfolding demand
demand_fits [] cm d v f = v.free_nonneg
demand_fits (rm ∷ rms) cm d v f = elim (Bool-cases (str_eq rm.name cm.name)) [
  | inl same ↦
      let fits = f.0 same in
      let absent = demand_absent cm.name rms (rw (eq_of_str_eq rm.name cm.name same) at d.0) in
      rw (same, absent) (omega (int_laws, ap pos_part v.total, ap neg_part v.total))
  | inr other ↦ rw other (demand_fits rms cm d.1 v f.1)
]
