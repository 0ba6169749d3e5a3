-- ===== src/Cluster/RoundTrip.antt =====
-- cluster.h: what `free` makes of what `alloc` has reserved.
use servy.Prelude.{◌≡◌, refl, ap, ◌∙◌, true, List, [], ◌∷◌, map, All}
use servy.Prelude.Int.{◌+ℤ◌, ◌≤ℤ◌, int_laws, +ℤ_cancel, +ℤ-ℤ_cancel}
use servy.Machine.{Machine}
use servy.Machine.Accounting.{IsValid, reserved}
use servy.Cluster.{can_alloc, alloc, free}
use servy.Cluster.Fits.{FitsAll, can_alloc_iff}
use servy.Cluster.Reserve.{alloc_lines, free_lines, alloc-eq-map, free-eq-map}
use servy.Cluster.Demand.{
  demand, NonNeg, Distinct, demand_nonneg, demand_fits, alloc_lines_granted, free_lines_granted,
}

free_lines-alloc_lines :
    (rms : List Machine) (cm : Machine)
    → NonNeg rms
    → Distinct rms
    → IsValid cm
    → FitsAll rms cm
    → free_lines rms (alloc_lines rms cm) ≡ cm
free_lines-alloc_lines rms cm p d v f =
    let n = demand cm.name rms in
    let some_or_none = demand_nonneg cm.name rms p in
    let there : n ≤ℤ cm.res +ℤ n = let r = v.res_nonneg in omega int_laws in
    ap (free_lines rms) (alloc_lines_granted rms cm p (demand_fits rms cm d v f))
    ∙ free_lines_granted rms (reserved cm n) p there
    ∙ (λ i. record cm { res = +ℤ_cancel cm.res n i; free = +ℤ-ℤ_cancel cm.free n i })

each_back :
    (rms cs : List Machine)
    → NonNeg rms
    → Distinct rms
    → All IsValid cs
    → All (FitsAll rms) cs
    → map (free_lines rms) (map (alloc_lines rms) cs) ≡ cs
each_back rms [] p d v f = refl
each_back rms (cm ∷ cs) p d v f =
    rw (free_lines-alloc_lines rms cm p d v.0 f.0, each_back rms cs p d v.1 f.1)

pub free-alloc :
    (cs rms : List Machine)
    → NonNeg rms
    → Distinct rms
    → All IsValid cs
    → can_alloc cs rms ≡ true
    → free (alloc cs rms) rms ≡ cs
free-alloc cs rms p d v h =
    free-eq-map (alloc cs rms) rms
    ∙ ap (map (free_lines rms)) (alloc-eq-map cs rms)
    ∙ each_back rms cs p d v ((can_alloc_iff cs rms).0 h)
