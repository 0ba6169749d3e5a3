-- ===== src/Tests/Rounds.antt =====
-- Rounds of the client's loop (client.cpp).
use mathlib.Core.Path.{subst}
use mathlib.Core.Option.{some-injective}
use servy.Prelude.{◌≡◌, refl, true, false, [], ◌∷◌, some, none}
use servy.Prelude.Int.{pos}
use servy.Prelude.Text.{codes}
use servy.Message.{Message, MsgType}
use servy.Client
use servy.Client.Arguments.{Settings}
use servy.Client.Session.{pick, sends, shown, accepted, Picked}
use servy.Client.Loop.{
  Seen, Main, start, rounds, round, run_message, send_first, send_pick, hand_over, receive,
}
use servy.Client.Loop.Talk.{IsTold, shows_in_order}
use servy.Client.Loop.Defined.{IsOrdinary}
use servy.Client.Loop.Ends.{down_ends}
use servy.Prelude.Decimal.{value}
use servy.MachineList.{
  split, blank_colons, skip_spaces, take_word, read_word, digits, read_number, read_int, machine_of,
  machines_of, get_machines,
}
use servy.Message.RoundTrip.{packed, push_str_fits}
use servy.Tests.Samples.{job, request}
use servy.Tests.Traffic.{sample, job-IsCarried}

abbrev settings : Settings
settings = record {
  id = pos 7;
  user = codes "ann";
  dir = codes "/tmp";
  simfile = codes "a.sim";
  run_cmd = codes "go";
  machstr = codes "thor:30";
}

abbrev welcome : Message
welcome = package.servy.Message.new MsgType.server_accept

-- The welcome arrives, and the user asks for the status.
abbrev asked : Seen
asked = record {
  news = some (pos 4);
  now = [];
  arrives = welcome ∷ [];
  up_run = true;
  up_pick = true;
  up_loop = true;
  joins = true;
}

abbrev gone : Seen
gone = record asked { news = none; arrives = []; up_loop = false }

status_picked : pick sample [] (codes "ann") (pos 4) ≡ some (sends Client.qstatus)
unfolding pick
status_picked = refl

shown-welcome : shown welcome ≡ some accepted
unfolding shown
shown-welcome = refl

machines_read : get_machines (codes "thor:30") ≡ some request
unfolding get_machines machines_of machine_of split blank_colons read_word skip_spaces take_word
    read_int read_number digits value
machines_read = refl

abbrev run_letter : Message
run_letter = packed (package.servy.Message.new MsgType.send_run) (sample.save_run job) 2

run_packed : run_message sample settings ≡ some run_letter
unfolding run_message Client.send_run
run_packed = rw machines_read (
    push_str_fits (package.servy.Message.new MsgType.send_run) (sample.save_run job)
      job-IsCarried.plain job-IsCarried.short)

abbrev at_end : Main
at_end = record {
  sendrun = false;
  quit = true;
  joining = false;
  incoming = [];
  sent = run_letter ∷ Client.qstatus ∷ [];
  screen = accepted ∷ [];
  arrived = welcome ∷ [];
}

rounds_end : rounds sample settings (asked ∷ gone ∷ []) (start true) ≡ some at_end
unfolding rounds round send_first send_pick hand_over receive
rounds_end = rw (run_packed, status_picked, shown-welcome) refl

shows_in_order_example : IsTold at_end
shows_in_order_example = shows_in_order sample settings (asked ∷ gone ∷ []) true at_end rounds_end

asked-IsOrdinary : IsOrdinary sample settings asked
asked-IsOrdinary = record {
  packs = λ z e.
      subst (λ z. (p : Picked) × pick sample [] (codes "ann") z ≡ some p) (some-injective _ _ e)
        (sends Client.qstatus, status_picked);
  reads = ((accepted, shown-welcome), tt);
}

gone-IsOrdinary : IsOrdinary sample settings gone
gone-IsOrdinary = record { packs = λ z e. absurd (cc e); reads = tt }

down_ends_example :
    (m : Main) × (rounds sample settings (asked ∷ gone ∷ []) (start true) ≡ some m)
    × (m.quit ≡ true)
    × (m.joining ≡ false)
down_ends_example =
    down_ends sample settings (asked ∷ []) gone [] true run_letter run_packed
      (asked-IsOrdinary, (gone-IsOrdinary, tt)) (refl, (refl, tt)) refl

-- The reader goes on waiting.
abbrev stuck : Seen
stuck = record gone { joins = false }
