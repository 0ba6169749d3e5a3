-- ===== src/Scheduler.antt =====
-- The run scheduler of SimpleServer.cpp: the queues and the cluster that the mutex `mu` guards, and
-- the detached threads that execute runs. Each operation is one critical section of the source.
pub mod Books
pub mod Sections
pub mod Safety
pub mod Progress
pub mod History
use servy.Prelude.{
  ◌>>=◌, ℕ, ◌≡◌, Bool, true, false, List, [], ◌∷◌, ◌++◌, Option, none, some, ltb, ◌&&◌, not,
  if◌then◌else◌,
}
use servy.Machine.{Machine}
use servy.Run.{Run, run_eq}
use servy.Cluster.{can_alloc, alloc, free}
use servy.VQueue.{add_item, rm_item, mvup, mvdn, front, pop_front, empty, size}

pub record Scheduler : Type 0 where
  pub vq : List Run
  pub done_runs : List Run
  pub active_runs : List Run
  pub mcluster : List Machine
  -- the runs whose thread has been started and has not yet entered its critical section
  pub threads : List Run

-- The predicate of `cond.wait`: `!vq.empty() && mcluster.can_alloc(vq.front())`.
unfoldable pub ready : Scheduler → Option Bool
ready s =
    if empty s.vq then some false else do r ← front s.vq; some (can_alloc s.mcluster r.machines)

-- handle_runs, from the wake-up to the start of the run's thread.
unfoldable pub launch : Scheduler → Option Scheduler
launch s = do
  (arun, rest) ← pop_front s.vq
  some (record s {
    vq = rest;
    active_runs = add_item s.active_runs arun;
    mcluster = alloc s.mcluster arun.machines;
    threads = arun ∷ s.threads;
  })

-- One round of handle_runs; `none` where it waits on.
unfoldable pub start : Scheduler → Option Scheduler
unfolding ready launch
start s = do go ← ready s; if go then launch s else none

-- `if(done_runs.size() > 5) done_runs.pop_front()`
unfoldable pub trim : List Run → Option (List Run)
trim done = if ltb 5 (size done) then (do (_, rest) ← pop_front done; some rest) else some done

-- execute_run, after `arun.execute()` has returned
unfoldable pub end_run : Run → Scheduler → Option Scheduler
end_run arun s = do
  done ← trim s.done_runs
  some (record s {
    mcluster = free s.mcluster arun.machines;
    active_runs = rm_item run_eq s.active_runs arun;
    done_runs = add_item done arun;
  })

-- The critical sections of OnMessage.
unfoldable pub send_run : Scheduler → Run → Scheduler
send_run s arun = record s { vq = add_item s.vq arun }

unfoldable pub move_run_up : Scheduler → Run → Scheduler
move_run_up s arun = record s { vq = mvup run_eq s.vq arun }

unfoldable pub move_run_down : Scheduler → Run → Option Scheduler
move_run_down s arun = do q ← mvdn run_eq s.vq arun; some (record s { vq = q })

unfoldable pub remove_run : Scheduler → Run → Scheduler
remove_run s arun = record s { vq = rm_item run_eq s.vq arun }

-- What can happen next, in whatever order the threads take the mutex. `Accepts` limits the runs that
-- clients send.
pub data Step (Accepts : Run → Type 0) (s t : Scheduler) : Type 0 where
  starts : start s ≡ some t → Step Accepts s t
  ends :
      (arun : Run) (pre post : List Run)
      → s.threads ≡ pre ++ arun ∷ post
      → end_run arun (record s { threads = pre ++ post }) ≡ some t
      → Step Accepts s t
  sends : (arun : Run) → Accepts arun → t ≡ send_run s arun → Step Accepts s t
  moves_up : (arun : Run) → t ≡ move_run_up s arun → Step Accepts s t
  moves_down : (arun : Run) → move_run_down s arun ≡ some t → Step Accepts s t
  removes : (arun : Run) → t ≡ remove_run s arun → Step Accepts s t

pub data Reach (Accepts : Run → Type 0) (s : Scheduler) : Scheduler → Type 0 where
  here : Reach Accepts s s
  next : {t u : Scheduler} → Reach Accepts s t → Step Accepts t u → Reach Accepts s u

-- The state in which the constructor of the server leaves it.
abbrev pub init : List Machine → Scheduler
init machines = record {
  vq = [];
  done_runs = [];
  active_runs = [];
  mcluster = machines;
  threads = [];
}
