-- ===== src/Scheduler/Books.antt =====
-- What the cluster's books say of the runs that execute.
use servy.Prelude.{◌≡◌, refl, ◌∙◌, List, [], ◌∷◌, ◌++◌, arith, All}
use servy.Prelude.Int.{ℤ, pos, ◌+ℤ◌, ◌≤ℤ◌, int_laws}
use servy.Prelude.Text.{Text}
use servy.Machine.{Machine}
use servy.Machine.Accounting.{IsValid, reserved-IsValid, returned-IsValid}
use servy.Run.{Run}
use servy.Cluster.Fits.{FitsAll}
use servy.Cluster.Reserve.{alloc_lines, free_lines}
use servy.Cluster.Demand.{
  demand, NonNeg, Distinct, demand_nonneg, demand_fits, alloc_lines_granted, free_lines_granted,
}

-- A run that names no machine twice and asks nowhere for less than nothing.
pub record IsGood (r : Run) : Type 0 where
  pub nonneg : NonNeg r.machines
  pub distinct : Distinct r.machines

-- The cores of a machine that a list of runs asks for.
unfoldable pub load : Text → List Run → ℤ
load name [] = pos 0
load name (r ∷ rs) = demand name r.machines +ℤ load name rs

-- The machine is well-formed, and exactly the cores that the runs ask for are reserved on it.
pub record IsBooked (rs : List Run) (cm : Machine) : Type 0 where
  pub valid : IsValid cm
  pub booked : cm.res ≡ load cm.name rs

load_nonneg : (name : Text) (rs : List Run) → All IsGood rs → pos 0 ≤ℤ load name rs
unfolding load
load_nonneg name [] h = omega arith
load_nonneg name (r ∷ rs) h =
    let d = demand_nonneg name r.machines h.0.nonneg in
    let l = load_nonneg name rs h.1 in omega int_laws

load-middle :
    (name : Text) (pre : List Run) (r : Run) (post : List Run)
    → load name (pre ++ r ∷ post) ≡ demand name r.machines +ℤ load name (pre ++ post)
unfolding load
load-middle name [] r post = refl
load-middle name (x ∷ pre) r post = rw (load-middle name pre r post) (omega int_laws)

-- The start of a run that fits books its demand.
pub alloc_lines-IsBooked :
    (r : Run) (rs : List Run) (cm : Machine)
    → IsGood r
    → IsBooked rs cm
    → FitsAll r.machines cm
    → IsBooked (r ∷ rs) (alloc_lines r.machines cm)
unfolding load
alloc_lines-IsBooked r rs cm g b f =
    let d = demand cm.name r.machines in
    let fits = demand_fits r.machines cm g.distinct b.valid f in
    rw (alloc_lines_granted r.machines cm g.nonneg fits) (record {
      valid = reserved-IsValid cm d (demand_nonneg cm.name r.machines g.nonneg) fits b.valid;
      booked = rw b.booked (omega int_laws);
    })

-- The end of one of the runs unbooks its demand.
pub free_lines-IsBooked :
    (pre : List Run) (r : Run) (post : List Run) (cm : Machine)
    → IsGood r
    → All IsGood (pre ++ post)
    → IsBooked (pre ++ r ∷ post) cm
    → IsBooked (pre ++ post) (free_lines r.machines cm)
free_lines-IsBooked pre r post cm g gs b =
    let d = demand cm.name r.machines in
    let others = load_nonneg cm.name (pre ++ post) gs in
    let total : cm.res ≡ d +ℤ load cm.name (pre ++ post) =
      b.booked ∙ load-middle cm.name pre r post in
    let there : d ≤ℤ cm.res = rw total (omega int_laws) in
    rw (free_lines_granted r.machines cm g.nonneg there) (record {
      valid = returned-IsValid cm d (demand_nonneg cm.name r.machines g.nonneg) there b.valid;
      booked = rw total (omega int_laws);
    })
