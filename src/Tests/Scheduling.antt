-- ===== src/Tests/Scheduling.antt =====
-- The scheduler of SimpleServer.cpp on the runs of `Samples`.
use mathlib.Core.List.{Perm}
use servy.Prelude.{◌≡◌, refl, true, [], ◌∷◌, some, none, arith, All, length, ◌≤◌}
use servy.Prelude.Int.{◌≤ℤ◌, ◌-ℤ◌, ◌+ℤ◌}
use servy.Prelude.Text.{str_eq}
use servy.Machine.{alloc as alloc_cores}
use servy.Cluster.{can_alloc, can_alloc_from, can_alloc_on, can_run_after, alloc, alloc_on}
use servy.VQueue.{add_item, empty, front}
use servy.Scheduler.{Scheduler, starts, sends, Reach, here, next, init, start, send_run}
use servy.Scheduler.Sections.{launched, start_fits}
use servy.Scheduler.Books.{IsGood, load}
use servy.Scheduler.Safety.{IsFresh, Reach-IsSafe, init-IsSafe, never_overcommitted}
use servy.Scheduler.Progress.{Drain, front_starts}
use servy.Scheduler.History.{xids, status_shows_threads}
use servy.Tests.Samples.{cluster, job, second, request}

pub job-IsGood : IsGood job
job-IsGood = record { nonneg = omega arith; distinct = (tt, tt) }

second-IsGood : IsGood second
second-IsGood = record { nonneg = omega arith; distinct = (tt, tt) }

pub cluster-IsFresh : All IsFresh cluster
cluster-IsFresh = (
  record { size_nonneg = omega arith; idle = refl; all_free = refl },
  (record { size_nonneg = omega arith; idle = refl; all_free = refl }, tt),
)

-- Both runs want 30 of the 40 cores of thor: the first is started, the second waits.
abbrev queued : Scheduler
queued = record (init cluster) { vq = job ∷ second ∷ [] }

abbrev busy : Scheduler
busy = launched queued job (second ∷ [])

pub granted : can_alloc cluster request ≡ true
unfolding can_alloc can_alloc_from can_alloc_on can_run_after str_eq ◌-ℤ◌
granted = refl

second_waits : start busy ≡ none
unfolding start can_alloc can_alloc_from can_alloc_on can_run_after alloc alloc_on alloc_cores
    str_eq ◌-ℤ◌ ◌+ℤ◌ empty front
second_waits = refl

queued-Reach : Reach IsGood (init cluster) queued
unfolding send_run add_item
queued-Reach = next (next here (sends job job-IsGood refl)) (sends second second-IsGood refl)

busy-Reach : Reach IsGood (init cluster) busy
busy-Reach = next queued-Reach (starts (start_fits queued job (second ∷ []) refl granted))

never_overcommitted_example :
    All
      (λ cm. (load cm.name busy.threads ≤ℤ cm.size) × (cm.res ≡ load cm.name busy.threads))
      busy.mcluster
never_overcommitted_example = never_overcommitted cluster busy cluster-IsFresh busy-Reach

status_shows_threads_example :
    Perm (xids busy.active_runs) (xids busy.threads) × (length busy.done_runs ≤ 6)
status_shows_threads_example = status_shows_threads cluster busy busy-Reach

front_starts_example :
    (u : Scheduler) × Drain queued u × (start u ≡ some (launched u job (second ∷ [])))
front_starts_example =
    front_starts queued job (second ∷ [])
      (Reach-IsSafe (init-IsSafe cluster cluster-IsFresh) queued-Reach) refl
      (((λ _. omega arith), tt), (((λ _. omega arith), tt), tt))
