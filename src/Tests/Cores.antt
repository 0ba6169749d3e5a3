-- ===== src/Tests/Cores.antt =====
-- machine.h and cluster.h at concrete machines.
use servy.Prelude.{◌≡◌, ◌↔◌, refl, true, [], ◌∷◌, arith, All}
use servy.Prelude.Int.{pos, ◌+ℤ◌}
use servy.Prelude.Text.{codes, str_eq}
use servy.Machine.{Machine, alloc as alloc_cores, free as free_cores}
use servy.Machine.Accounting.{IsValid, alloc-IsValid, free-alloc, reserved, returned}
use servy.Cluster.{can_alloc, alloc, free}
use servy.Cluster.Fits.{FitsAll, can_alloc_iff}
use servy.Cluster.RoundTrip
use servy.Cluster.Overcommit.{duplicate_lines, unknown_machines}
use servy.Tests.Samples.{thor, cluster, request}

thor-IsValid : IsValid thor
unfolding ◌+ℤ◌
thor-IsValid = record { total = refl; res_nonneg = omega arith; free_nonneg = omega arith }

alloc-IsValid_example : IsValid (alloc_cores thor (pos 50)).0
alloc-IsValid_example = alloc-IsValid thor (pos 50) (omega arith) thor-IsValid

free-alloc_example : (free_cores (alloc_cores thor (pos 30)).0 (pos 30)).0 ≡ thor
free-alloc_example = free-alloc thor (pos 30) thor-IsValid (omega arith)

can_alloc_iff_example : (can_alloc cluster request ≡ true) ↔ All (FitsAll request) cluster
can_alloc_iff_example = can_alloc_iff cluster request

-- Other runs have 30 of 40 cores, and a request of 8 and 8 more is granted.
abbrev busy : Machine
busy = record { name = codes "thor"; size = pos 40; res = pos 30; free = pos 10 }

busy-IsValid : IsValid busy
unfolding ◌+ℤ◌
busy-IsValid = record { total = refl; res_nonneg = omega arith; free_nonneg = omega arith }

abbrev eight : Machine
eight = package.servy.Machine.new (codes "thor") (pos 8)

duplicate_lines_example :
    (can_alloc (busy ∷ []) (eight ∷ eight ∷ []) ≡ true)
    × (alloc (busy ∷ []) (eight ∷ eight ∷ []) ≡ reserved busy (pos 8) ∷ [])
    × (free (alloc (busy ∷ []) (eight ∷ eight ∷ [])) (eight ∷ eight ∷ [])
        ≡ returned busy (pos 8) ∷ [])
unfolding ◌+ℤ◌
duplicate_lines_example =
    duplicate_lines busy eight eight busy-IsValid refl refl (omega arith) (omega arith)
      (omega arith) (omega arith)

abbrev stranger : Machine
stranger = package.servy.Machine.new (codes "loki") (pos 99)

unknown_machines_example :
    (can_alloc cluster (stranger ∷ []) ≡ true) × (alloc cluster (stranger ∷ []) ≡ cluster)
unfolding str_eq
unknown_machines_example = unknown_machines cluster (stranger ∷ []) (((refl, (refl, tt)), tt))
