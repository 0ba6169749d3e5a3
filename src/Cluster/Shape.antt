-- ===== src/Cluster/Shape.antt =====
-- Reserving and returning cores changes neither the names nor the sizes of machines (cluster.h).
use servy.Prelude.{◌≡◌, refl, ◌∙◌, List, [], ◌∷◌, inl, inr, Bool-cases}
use servy.Prelude.Int.{leb_ℤ}
use servy.Prelude.Text.{str_eq}
use servy.Machine.{Machine, free as free_cores}
use servy.Cluster.{free_on}
use servy.Cluster.Reserve.{free_lines}

-- Two states of one machine.
pub record SameMachine (a b : Machine) : Type 0 where
  pub name : a.name ≡ b.name
  pub size : a.size ≡ b.size

free_cores-same : (rm cm : Machine) → SameMachine (free_cores cm rm.size).0 cm
unfolding free_cores
free_cores-same rm cm = elim (Bool-cases (leb_ℤ rm.size cm.res)) [
  | inl e ↦ rw e (record { name = refl; size = refl })
  | inr e ↦ rw e (record { name = refl; size = refl })
]

free_on-same : (rm cm : Machine) → SameMachine (free_on rm cm) cm
unfolding free_on
free_on-same rm cm = elim (Bool-cases (str_eq rm.name cm.name)) [
  | inl e ↦ rw e (free_cores-same rm cm)
  | inr e ↦ rw e (record { name = refl; size = refl })
]

pub free_lines-same : (rms : List Machine) (cm : Machine) → SameMachine (free_lines rms cm) cm
unfolding free_lines
free_lines-same [] cm = record { name = refl; size = refl }
free_lines-same (rm ∷ rms) cm =
    let first = free_on-same rm cm in
    let rest = free_lines-same rms (free_on rm cm) in
    record { name = rest.name ∙ first.name; size = rest.size ∙ first.size }
