-- ===== src/Cluster/Overcommit.antt =====
-- Requests that cluster.h grants without reserving what they ask for.
use servy.Prelude.{
  ◌≡◌, refl, ap, sym, ◌∙◌, inl, inr, true, false, List, [], ◌∷◌, map, All, All-mono, All-swap,
  Bool-cases,
}
use servy.Prelude.Int.{ℤ, ◌+ℤ◌, ◌≤ℤ◌, int_laws, pos_part, neg_part, leb_ℤ, le_of_leb_ℤ}
use servy.Prelude.Text.{str_eq, str_eq_refl}
use servy.Machine.{Machine, alloc as alloc_cores, free as free_cores, get_free}
use servy.Machine.Accounting.{IsValid, reserved, returned, alloc_granted, free_granted, free-alloc}
use servy.Cluster.{can_alloc, alloc, alloc_on, free, free_on}
use servy.Cluster.Fits.{Fits, FitsAll, can_alloc_iff}

alloc_refused : (m : Machine) (n : ℤ) → ¬ (n ≤ℤ m.free) → (alloc_cores m n).0 ≡ m
unfolding alloc_cores
alloc_refused m n h = elim (Bool-cases (leb_ℤ n m.free)) [
  | inl e ↦ absurd (h (le_of_leb_ℤ n m.free e))
  | inr e ↦ rw e
]

same_name : (rm cm : Machine) → rm.name ≡ cm.name → str_eq rm.name cm.name ≡ true
same_name rm cm e = ap (λ n. str_eq n cm.name) e ∙ str_eq_refl cm.name

alloc_on_same : (rm cm : Machine) → rm.name ≡ cm.name → alloc_on rm cm ≡ (alloc_cores cm rm.size).0
unfolding alloc_on
alloc_on_same rm cm e = rw (same_name rm cm e)

free_on_same : (rm cm : Machine) → rm.name ≡ cm.name → free_on rm cm ≡ (free_cores cm rm.size).0
unfolding free_on
free_on_same rm cm e = rw (same_name rm cm e)

map-alloc_on_other :
    (rm : Machine) (cs : List Machine)
    → All (λ cm. str_eq rm.name cm.name ≡ false) cs
    → map (alloc_on rm) cs ≡ cs
unfolding alloc_on
map-alloc_on_other rm [] h = refl
map-alloc_on_other rm (cm ∷ cs) h = rw (h.0, map-alloc_on_other rm cs h.1)

-- A request that names a machine twice is granted where each of its two lines fits by itself, though
-- both together do not. Then only the first line is reserved; and when the run has ended, both lines
-- are returned, the second one out of the cores that other runs have reserved.
pub duplicate_lines :
    (cm a b : Machine)
    → IsValid cm
    → a.name ≡ cm.name
    → b.name ≡ cm.name
    → a.size ≤ℤ cm.free
    → b.size ≤ℤ cm.free
    → ¬ (a.size +ℤ b.size ≤ℤ cm.free)
    → b.size ≤ℤ cm.res
    → let cs = cm ∷ [] in
      let request = a ∷ b ∷ [] in
      (can_alloc cs request ≡ true)
      × (alloc cs request ≡ reserved cm a.size ∷ [])
      × (free (alloc cs request) request ≡ returned cm b.size ∷ [])
unfolding alloc free
duplicate_lines cm a b v na nb fa fb over held =
    let fits_a : a.size ≤ℤ get_free cm =
      omega (int_laws, ap pos_part v.total, ap neg_part v.total) in
    let fits_b : b.size ≤ℤ get_free cm =
      omega (int_laws, ap pos_part v.total, ap neg_part v.total) in
    let granted = alloc_granted cm a.size fa in
    let refused = alloc_refused (reserved cm a.size) b.size (omega int_laws) in
    let allocated : alloc_on b (alloc_on a cm) ≡ reserved cm a.size =
      ap (alloc_on b) (alloc_on_same a cm na ∙ granted)
      ∙ alloc_on_same b (reserved cm a.size) nb
      ∙ refused in
    let back : free_on a (reserved cm a.size) ≡ cm =
      free_on_same a (reserved cm a.size) na
      ∙ ap (λ (m : Machine). (free_cores m a.size).0) (sym granted)
      ∙ free-alloc cm a.size v fa in
    let more : free_on b cm ≡ returned cm b.size =
      free_on_same b cm nb ∙ free_granted cm b.size held in
    (
      (can_alloc_iff (cm ∷ []) (a ∷ b ∷ [])).1 (((λ _. fits_a, (λ _. fits_b, tt)), tt)),
      ap (λ (m : Machine). m ∷ []) allocated,
      ap (λ (m : Machine). m ∷ [])
          (ap (λ (m : Machine). free_on b (free_on a m)) allocated ∙ ap (free_on b) back ∙ more),
    )

nothing_asked : (cs : List Machine) → All (FitsAll []) cs
nothing_asked [] = tt
nothing_asked (cm ∷ cs) = (tt, nothing_asked cs)

-- A request that names no machine of the cluster is granted, and reserves nothing.
pub unknown_machines :
    (cs rms : List Machine)
    → All (λ rm. All (λ cm. str_eq rm.name cm.name ≡ false) cs) rms
    → (can_alloc cs rms ≡ true) × (alloc cs rms ≡ cs)
unfolding alloc
unknown_machines cs [] h = ((can_alloc_iff cs []).1 (nothing_asked cs), refl)
unknown_machines cs (rm ∷ rms) h = (
  (can_alloc_iff cs (rm ∷ rms)).1 (
      All-mono (λ cm. All (λ r. str_eq r.name cm.name ≡ false) (rm ∷ rms)) (FitsAll (rm ∷ rms)) cs
        (λ cm other.
          All-mono (λ r. str_eq r.name cm.name ≡ false) (Fits cm) (rm ∷ rms)
            (λ r miss hit. absurd (cc (sym miss ∙ hit))) other)
        (All-swap (λ cm r. str_eq r.name cm.name ≡ false) cs (rm ∷ rms) h)),
  rw (map-alloc_on_other rm cs h.0) (unknown_machines cs rms h.1).1,
)
