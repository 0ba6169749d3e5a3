-- ===== src/Client/Loop/Once.antt =====
-- How often main sends the run of its arguments (client.cpp).
use servy.Prelude.{◌≡◌, false, List, ◌++◌, Option}
use servy.Message
use servy.Message.{Message, MsgType, push, to_bytes}
use servy.Archive.{Archive}
use servy.Client
use servy.Client.Arguments.{Settings}
use servy.Machine.{Machine}
use servy.Run.{Run}
use servy.Message.RoundTrip.{packed}
use servy.Client.Loop.{Seen, Main}
use servy.Client.Loop.Kinds.{runs_of}

-- Behind the first round: the run is not sent any more, and `n` are those that have been sent.
record IsPast (n : List Message) (m : Main) : Type 0 where
  over : m.sendrun ≡ false
  counted : runs_of m.sent ≡ n

abbrev with_arrivals : Seen → Main → Main
with_arrivals seen m = record m {
  incoming = m.incoming ++ seen.arrives;
  arrived = m.arrived ++ seen.arrives;
}

-- The run of the arguments, with the machines of their list.
abbrev pub run_of : Settings → List Machine → Run
run_of s machines = package.servy.Run.new s.user s.id s.dir s.simfile s.run_cmd machines

-- The message that carries a run.
abbrev pub letter_of : Archive → Run → Message
letter_of a r = packed (package.servy.Message.new MsgType.send_run) (a.save_run r) 2
