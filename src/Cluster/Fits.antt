-- ===== src/Cluster/Fits.antt =====
-- What `can_alloc` of cluster.h decides.
use servy.Prelude.{
  ◌≡◌, refl, ◌↔◌, inl, inr, Bool, true, List, [], ◌∷◌, arith, All, All-swap, Bool-cases,
}
use servy.Prelude.Int.{◌≤ℤ◌}
use servy.Prelude.Text.{str_eq}
use servy.Machine.{Machine, get_free}
use servy.Cluster.{can_alloc, can_alloc_from, can_alloc_on, can_run_after}

-- A request of one line fits a machine if it names another, or asks for no more than is free.
abbrev pub Fits : Machine → Machine → Type 0
Fits cm rm = str_eq rm.name cm.name ≡ true → rm.size ≤ℤ get_free cm

abbrev pub FitsAll : List Machine → Machine → Type 0
FitsAll rms cm = All (Fits cm) rms

can_alloc_on-true :
    (rm : Machine) (b : Bool) (cs : List Machine)
    → can_alloc_on rm b cs ≡ true
    → (b ≡ true) × All (λ cm. Fits cm rm) cs
unfolding can_alloc_on can_run_after
can_alloc_on-true rm b [] h = (h, tt)
can_alloc_on-true rm b (cm ∷ cs) h =
    let ih = can_alloc_on-true rm (can_run_after rm b cm) cs h in
    let flag = ih.0 in (ground arith, (λ e. ground arith, ih.1))

can_alloc_on-Fits :
    (rm : Machine) (cs : List Machine) → All (λ cm. Fits cm rm) cs → can_alloc_on rm true cs ≡ true
unfolding can_alloc_on can_run_after
can_alloc_on-Fits rm [] h = refl
can_alloc_on-Fits rm (cm ∷ cs) h = elim (Bool-cases (str_eq rm.name cm.name)) [
  | inl same ↦ let fits = h.0 same in ground (arith, can_alloc_on-Fits rm cs h.1)
  | inr other ↦ rw other (can_alloc_on-Fits rm cs h.1)
]

can_alloc_from-true :
    (cs : List Machine) (b : Bool) (rms : List Machine)
    → can_alloc_from cs b rms ≡ true
    → (b ≡ true) × All (λ rm. All (λ cm. Fits cm rm) cs) rms
unfolding can_alloc_from
can_alloc_from-true cs b [] h = (h, tt)
can_alloc_from-true cs b (rm ∷ rms) h =
    let ih = can_alloc_from-true cs (can_alloc_on rm b cs) rms h in
    let on = can_alloc_on-true rm b cs ih.0 in (on.0, (on.1, ih.1))

can_alloc_from-Fits :
    (cs rms : List Machine)
    → All (λ rm. All (λ cm. Fits cm rm) cs) rms
    → can_alloc_from cs true rms ≡ true
unfolding can_alloc_from
can_alloc_from-Fits cs [] h = refl
can_alloc_from-Fits cs (rm ∷ rms) h =
    rw (can_alloc_on-Fits rm cs h.0) (can_alloc_from-Fits cs rms h.1)

-- The flag that the two loops compute is true exactly when, at every machine of the cluster, each
-- line of the request that names it asks for no more cores than it has free.
pub can_alloc_iff : (cs rms : List Machine) → (can_alloc cs rms ≡ true) ↔ All (FitsAll rms) cs
unfolding can_alloc
can_alloc_iff cs rms = (
  λ h. All-swap Fits cs rms (can_alloc_from-true cs true rms h).1,
  λ h. can_alloc_from-Fits cs rms (All-swap (λ rm cm. Fits cm rm) rms cs h),
)
