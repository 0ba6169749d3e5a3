-- ===== src/Scheduler/Progress.antt =====
-- SimpleServer.cpp: the run at the front of the queue gets its turn.
use servy.Prelude.{All-mono₂, some, ◌≡◌, refl, ap, ◌∙◌, true, List, [], ◌∷◌, ◌++◌, All, All-map₂}
use servy.Prelude.Int.{◌≤ℤ◌, int_laws, pos_part, neg_part}
use servy.Prelude.Text.{str_eq}
use servy.Machine.{Machine}
use servy.Run.{Run}
use servy.Cluster.Fits.{FitsAll, can_alloc_iff}
use servy.Cluster.Reserve.{free_lines, free-eq-map}
use servy.Cluster.Shape.{free_lines-same}
use servy.Scheduler.{Scheduler, ends, start, end_run}
use servy.Scheduler.Sections.{launched, ended, end_run_lem, start_fits}
use servy.Scheduler.Books.{IsBooked, load}
use servy.Scheduler.Safety.{IsSafe, Step-IsSafe}

-- Some threads leave their critical sections, and nothing else happens.
pub data Drain : Scheduler → Scheduler → Type 0 where
  idle : {s u : Scheduler} → u ≡ s → Drain s u
  ending :
      {s u : Scheduler} (t : Scheduler) (r : Run) (pre post : List Run)
      → s.threads ≡ pre ++ r ∷ post
      → end_run r (record s { threads = pre ++ post }) ≡ some t
      → Drain t u
      → Drain s u

-- A line of a request asks a machine for no more cores than the machine has.
abbrev pub FitsIdle : List Machine → Machine → Type 0
FitsIdle rms cm = All (λ rm. str_eq rm.name cm.name ≡ true → rm.size ≤ℤ cm.size) rms

FitsIdle-free_lines :
    (rms lines : List Machine) (cm : Machine) → FitsIdle rms cm → FitsIdle rms (free_lines lines cm)
FitsIdle-free_lines rms lines cm f =
    let same = free_lines-same lines cm in rw (same.name, same.size) f

FitsIdle-ended :
    (rms : List Machine) (r : Run) (s : Scheduler)
    → All (FitsIdle rms) s.mcluster
    → All (FitsIdle rms) (ended r s).mcluster
FitsIdle-ended rms r s f = rw (free-eq-map s.mcluster r.machines) (
    All-map₂ (FitsIdle rms) (FitsIdle rms) (FitsIdle rms) (free_lines r.machines) s.mcluster
      (λ cm h _. FitsIdle-free_lines rms r.machines cm h) f f)

-- When the last thread has ended, what would fit the idle cluster fits.
idle_fits : (rms : List Machine) (cm : Machine) → IsBooked [] cm → FitsIdle rms cm → FitsAll rms cm
unfolding load
idle_fits [] cm b f = tt
idle_fits (rm ∷ rms) cm b f = (
  (λ e.
      let small = f.0 e in
      let booked = b.booked in omega (int_laws, ap pos_part b.booked, ap neg_part b.booked)),
  idle_fits rms cm b f.1,
)

-- What a drained scheduler keeps of the one that it was.
record Drained (rms : List Machine) (s u : Scheduler) : Type 0 where
  run_out : u.threads ≡ []
  queue : u.vq ≡ s.vq
  safe : IsSafe u
  fits : All (FitsIdle rms) u.mcluster

Drain-threads :
    (rs : List Run) (rms : List Machine) (s : Scheduler)
    → s.threads ≡ rs
    → IsSafe s
    → All (FitsIdle rms) s.mcluster
    → (u : Scheduler) × Drain s u × Drained rms s u
Drain-threads [] rms s e v f =
    (s, idle refl, record { run_out = e; queue = refl; safe = v; fits = f })
Drain-threads (r ∷ rs) rms s e v f =
    let s' = record s { threads = rs } in
    let did : end_run r s' ≡ some (ended r s') = end_run_lem r s' in
    let (u, path, kept) =
      Drain-threads rs rms (ended r s') refl (Step-IsSafe (ends r [] rs e did) v)
        (FitsIdle-ended rms r s' f) in
    (
      u,
      ending (ended r s') r [] rs e did path,
      record { run_out = kept.run_out; queue = kept.queue; safe = kept.safe; fits = kept.fits },
    )

-- From every safe state whose front run asks no machine for more cores than it has, the threads can
-- end in turn, and then, if not before, the scheduler starts that run.
pub front_starts :
    (s : Scheduler) (r : Run) (rest : List Run)
    → IsSafe s
    → s.vq ≡ r ∷ rest
    → All (FitsIdle r.machines) s.mcluster
    → (u : Scheduler) × Drain s u × (start u ≡ some (launched u r rest))
front_starts s r rest v e f =
    let (u, path, kept) = Drain-threads s.threads r.machines s refl v f in
    let books : All (IsBooked []) u.mcluster = rw kept.run_out at kept.safe.books in
    let fits : All (FitsAll r.machines) u.mcluster =
      All-mono₂ (IsBooked []) (FitsIdle r.machines) (FitsAll r.machines) u.mcluster
        (idle_fits r.machines) books kept.fits in
    (u, path, start_fits u r rest (kept.queue ∙ e) ((can_alloc_iff u.mcluster r.machines).1 fits))
