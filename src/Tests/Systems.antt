-- ===== src/Tests/Systems.antt =====
-- A run of the whole server: a client's message arrives, is handled, and its run is started.
use mathlib.Core.Path.{subst}
use mathlib.Core.Option.{some-injective}
use servy.Prelude.{◌≡◌, refl, sym, ◌∙◌, [], ◌∷◌, some, All}
use servy.Prelude.Int.{◌≤ℤ◌}
use servy.Message.{Message, MsgType, OwnedMessage}
use servy.Message.RoundTrip.{packed}
use servy.Scheduler.{Scheduler, Reach, init, start}
use servy.Scheduler.Sections.{launched, start_fits}
use servy.Scheduler.Books.{IsGood, load}
use servy.Server.{received_run}
use servy.Server.Requests.{sends, packed-id, received_run-packed, on_message_run, asked}
use servy.Server.Update.{deliver}
use servy.Server.System.{
  System, SystemReach, IsAllowed, run_starts, message_arrives, message_handled, here, next,
}
use servy.Server.System.Refines.{system_refines, system_not_overcommitted}
use servy.Tests.Samples.{cluster, job}
use servy.Tests.Traffic.{sample, server, job-IsCarried, job_read}
use servy.Tests.Scheduling.{job-IsGood, cluster-IsFresh, granted}
use servy.Scheduler

abbrev pub at_start : System
at_start = record { server = record server { scheduler = init cluster }; messages_in = [] }

abbrev letter : OwnedMessage
letter = record {
  remote = some 1;
  msg = packed (package.servy.Message.new MsgType.send_run) (sample.save_run job) 2;
}

letter_read : received_run sample letter.msg ≡ some job
letter_read = received_run-packed sample MsgType.send_run job job-IsCarried job_read

letter-IsAllowed : IsAllowed sample IsGood letter
letter-IsAllowed r h = subst IsGood (some-injective _ _ (sym letter_read ∙ h)) job-IsGood

abbrev queued : Scheduler
queued = record (init cluster) { vq = job ∷ [] }

abbrev handled : System
handled = record at_start { server = record at_start.server { scheduler = queued } }

letter_handled : deliver sample at_start.server letter ≡ some handled.server
unfolding deliver asked Scheduler.send_run package.servy.VQueue.add_item
letter_handled =
    on_message_run sample at_start.server 1 sends letter.msg job
      (packed-id MsgType.send_run (sample.save_run job) 2) letter_read

abbrev started : System
started = record handled { server = record handled.server { scheduler = launched queued job [] } }

started-Reach : SystemReach sample IsGood at_start started
started-Reach =
    next
      (next (next here (message_arrives letter letter-IsAllowed refl))
        (message_handled letter [] handled.server refl letter_handled refl))
      (run_starts (launched queued job []) (start_fits queued job [] refl granted) refl)

system_refines_example : Reach IsGood (init cluster) (launched queued job [])
system_refines_example = system_refines IsGood sample at_start started tt started-Reach

system_not_overcommitted_example :
    All
      (λ cm.
        (load cm.name started.server.scheduler.threads ≤ℤ cm.size)
        × (cm.res ≡ load cm.name started.server.scheduler.threads))
      started.server.scheduler.mcluster
system_not_overcommitted_example =
    system_not_overcommitted sample cluster at_start started cluster-IsFresh refl refl started-Reach
