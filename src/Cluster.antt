-- ===== src/Cluster.antt =====
-- cluster.h: the machines of the cluster, and the test, reservation and return of a run's request.
-- A request is the list of machines of a run: a name and a number of cores each.
pub mod Fits
pub mod Reserve
pub mod Demand
pub mod Shape
pub mod RoundTrip
pub mod Overcommit
use servy.Prelude.{◌≡◌, Bool, true, false, not, ◌&&◌, List, [], ◌∷◌, ◌++◌, map, if◌then◌else◌}
use servy.Prelude.Int.{ℤ, ltb_ℤ}
use servy.Prelude.Text.{str_eq}
use servy.Machine.{Machine, get_free, alloc as alloc_cores, free as free_cores}

unfoldable pub add_machine : List Machine → Machine → List Machine
add_machine cs m = cs ++ m ∷ []

-- The body of the inner loop of `can_alloc`: the flag `canRun` after one machine of the cluster.
unfoldable pub can_run_after : Machine → Bool → Machine → Bool
can_run_after rm can_run cm =
    if str_eq rm.name cm.name
    then if ltb_ℤ (get_free cm) rm.size then false else can_run
    else can_run

unfoldable pub can_alloc_on : Machine → Bool → List Machine → Bool
can_alloc_on rm can_run [] = can_run
can_alloc_on rm can_run (cm ∷ cs) = can_alloc_on rm (can_run_after rm can_run cm) cs

unfoldable pub can_alloc_from : List Machine → Bool → List Machine → Bool
can_alloc_from cs can_run [] = can_run
can_alloc_from cs can_run (rm ∷ rms) = can_alloc_from cs (can_alloc_on rm can_run cs) rms

-- cluster::can_alloc
unfoldable pub can_alloc : List Machine → List Machine → Bool
can_alloc cs rms = can_alloc_from cs true rms

-- The body of the inner loop of `alloc`: the result of `cm.alloc` is dropped.
unfoldable pub alloc_on : Machine → Machine → Machine
alloc_on rm cm = if str_eq rm.name cm.name then (alloc_cores cm rm.size).0 else cm

-- cluster::alloc
unfoldable pub alloc : List Machine → List Machine → List Machine
alloc cs [] = cs
alloc cs (rm ∷ rms) = alloc (map (alloc_on rm) cs) rms

unfoldable pub free_on : Machine → Machine → Machine
free_on rm cm = if str_eq rm.name cm.name then (free_cores cm rm.size).0 else cm

-- cluster::free
unfoldable pub free : List Machine → List Machine → List Machine
free cs [] = cs
free cs (rm ∷ rms) = free (map (free_on rm) cs) rms
