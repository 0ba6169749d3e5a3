-- ===== src/Cluster/Reserve.antt =====
-- The two loops of `alloc` and of `free` in cluster.h, seen from one machine of the cluster.
use servy.Prelude.{◌≡◌, refl, sym, List, [], ◌∷◌, map, ◌∙◌}
use servy.Machine.{Machine}
use servy.Cluster.{alloc, alloc_on, free, free_on}

-- What the whole request does to one machine.
unfoldable pub alloc_lines : List Machine → Machine → Machine
unfolding alloc_on
alloc_lines [] cm = cm
alloc_lines (rm ∷ rms) cm = alloc_lines rms (alloc_on rm cm)

unfoldable pub free_lines : List Machine → Machine → Machine
unfolding free_on
free_lines [] cm = cm
free_lines (rm ∷ rms) cm = free_lines rms (free_on rm cm)

map-map : (f g : Machine → Machine) (cs : List Machine) → map f (map g cs) ≡ map (λ c. f (g c)) cs
map-map f g [] = refl
map-map f g (c ∷ cs) = rw (map-map f g cs)

map-same : (cs : List Machine) → map (λ c. c) cs ≡ cs
map-same [] = refl
map-same (c ∷ cs) = rw (map-same cs)

pub alloc-eq-map : (cs rms : List Machine) → alloc cs rms ≡ map (alloc_lines rms) cs
unfolding alloc alloc_lines
alloc-eq-map cs [] = sym (map-same cs)
alloc-eq-map cs (rm ∷ rms) =
    alloc-eq-map (map (alloc_on rm) cs) rms ∙ map-map (alloc_lines rms) (alloc_on rm) cs

pub free-eq-map : (cs rms : List Machine) → free cs rms ≡ map (free_lines rms) cs
unfolding free free_lines
free-eq-map cs [] = sym (map-same cs)
free-eq-map cs (rm ∷ rms) =
    free-eq-map (map (free_on rm) cs) rms ∙ map-map (free_lines rms) (free_on rm) cs
