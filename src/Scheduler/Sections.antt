-- ===== src/Scheduler/Sections.antt =====
-- SimpleServer.cpp: when the critical sections of the scheduler take effect, and what they change.
use servy.Prelude.{
  ◌≡◌, refl, true, false, List, [], ◌∷◌, none, some, arith, ltb, if◌then◌else◌, inl, inr,
  Bool-cases, Option-cases, length,
}
use servy.Run.{Run, run_eq}
use servy.Cluster.{can_alloc, alloc, free}
use servy.VQueue.{add_item, rm_item, mvdn, front, pop_front, empty}
use servy.Scheduler.{Scheduler, start, end_run, trim, move_run_down}

-- The state after the front run `r` has been started, `rest` being the queue behind it.
abbrev pub launched : Scheduler → Run → List Run → Scheduler
launched s r rest = record s {
  vq = rest;
  active_runs = add_item s.active_runs r;
  mcluster = alloc s.mcluster r.machines;
  threads = r ∷ s.threads;
}

start_empty : (s : Scheduler) → s.vq ≡ [] → start s ≡ none
unfolding start empty
start_empty s e = rw (e)

pub start_fits :
    (s : Scheduler) (r : Run) (rest : List Run)
    → s.vq ≡ r ∷ rest
    → can_alloc s.mcluster r.machines ≡ true
    → start s ≡ some (launched s r rest)
unfolding start empty front pop_front
start_fits s r rest e h = rw (e, h)

start_waits :
    (s : Scheduler) (r : Run) (rest : List Run)
    → s.vq ≡ r ∷ rest
    → can_alloc s.mcluster r.machines ≡ false
    → start s ≡ none
unfolding start empty front
start_waits s r rest e h = rw (e, h)

-- When a round of handle_runs takes effect, and how.
pub data Started (s t : Scheduler) : Type 0 where
  started :
      (r : Run) (rest : List Run)
      → s.vq ≡ r ∷ rest
      → can_alloc s.mcluster r.machines ≡ true
      → t ≡ launched s r rest
      → Started s t

start-Started-on : (q : List Run) (s t : Scheduler) → s.vq ≡ q → start s ≡ some t → Started s t
start-Started-on [] s t e h = absurd (cc (start_empty s e))
start-Started-on (r ∷ rest) s t e h = elim (Bool-cases (can_alloc s.mcluster r.machines)) [
  | inl fits ↦ started r rest e fits (cc (start_fits s r rest e fits))
  | inr full ↦ absurd (cc (start_waits s r rest e full))
]

pub start-Started : (s t : Scheduler) → start s ≡ some t → Started s t
start-Started s t h = start-Started-on s.vq s t refl h

-- The list of done runs before the new one: without its oldest entry, if there are more than five.
unfoldable pub trimmed : List Run → List Run
trimmed [] = []
trimmed (r ∷ done) = if ltb 5 (length (r ∷ done)) then done else r ∷ done

trim_lem : (done : List Run) → trim done ≡ some (trimmed done)
unfolding trim trimmed pop_front
trim_lem [] = refl
trim_lem (r ∷ done) = ground arith

-- The state after the thread of `r` has left its critical section.
abbrev pub ended : Run → Scheduler → Scheduler
ended r s = record s {
  mcluster = free s.mcluster r.machines;
  active_runs = rm_item run_eq s.active_runs r;
  done_runs = add_item (trimmed s.done_runs) r;
}

-- The critical section of execute_run never fails.
pub end_run_lem : (r : Run) (s : Scheduler) → end_run r s ≡ some (ended r s)
unfolding end_run
end_run_lem r s = rw (trim_lem s.done_runs)

pub end_run-ended : (r : Run) (s t : Scheduler) → end_run r s ≡ some t → t ≡ ended r s
end_run-ended r s t h = cc (end_run_lem r s)

-- What `move_run_down` changes, where it is defined.
pub move_run_down-vq :
    (s t : Scheduler) (r : Run)
    → move_run_down s r ≡ some t
    → (q : List Run) × (mvdn run_eq s.vq r ≡ some q) × (t ≡ record s { vq = q })
unfolding move_run_down
move_run_down-vq s t r h = elim (Option-cases (mvdn run_eq s.vq r)) [
  | inl e ↦ absurd (cc (rw e at h))
  | inr (q, e) ↦ (q, e, cc (rw e at h))
]
