-- ===== src/Client/Session.antt =====
-- What the loop of main in client.cpp does for the user's pick, and with a message from the server.
-- `usrpick` is what all tests of one round see; Picking has the thread that sets it. `now` is the
-- bytes of the clock's `time_point`, which are eight.
pub mod Answers
pub mod Picking
use servy.Prelude.{◌>>=◌, ℕ, List, Option, none, some, if◌then◌else◌, ◌==◌}
use servy.Prelude.Int.{ℤ, pos, negsuc}
use servy.Prelude.Text.{Text, codes}
use servy.Run.{reference}
use servy.Message.{Message, MsgType, pop, of_bytes}
use servy.Message.Strings.{pop_reply}
use servy.Archive.{Archive}
use servy.Client.{
  ping_server, message_all, qstatus, send_text, move_run_up, move_run_down, remove_run,
}

abbrev pub mstring : Text
mstring = codes "run x with 128 cores"

-- What a pick has the client do.
pub data Picked : Type 0 where
  nothing quits : Picked
  sends : (msg : Message) → Picked

abbrev pub sent : Option Message → Option Picked
sent none = none
sent (some msg) = some (sends msg)

-- The tests on a `usrpick` that is not negative
abbrev picked : Archive → List ℕ → Text → ℕ → Option Picked
picked a now user n =
    if n == 1
    then sent (send_text a mstring)
    else if n == 2
    then some (sends (ping_server now))
    else if n == 3
    then some (sends message_all)
    else if n == 4
    then some (sends qstatus)
    else if n == 5
    then sent (move_run_up a (reference user (pos 5)))
    else if n == 6
    then sent (move_run_down a (reference user (pos 6)))
    else if n == 7
    then sent (remove_run a (reference user (pos 7)))
    else if n == 0
    then some quits
    else some nothing

unfoldable pub pick : Archive → List ℕ → Text → ℤ → Option Picked
pick a now user (pos n) = picked a now user n
pick a now user (negsuc n) = some nothing

-- What a message has the client show: for a ping the bytes of the time that is subtracted from the
-- clock's, for a greeting the client's id.
pub data Shown : Type 0 where
  accepted : Shown
  ping : (time_then : List ℕ) → Shown
  hello : (client_id : ℕ) → Shown
  text : (smsg : Text) → Shown
  silent : Shown

abbrev pub shown_as : MsgType → Message → Option Shown
shown_as MsgType.server_accept msg = some accepted
shown_as MsgType.server_ping msg = do (time_then, _) ← pop msg 8; some (ping time_then)
shown_as MsgType.server_message msg = do
  (client_id, _) ← pop msg 4
  some (hello (of_bytes client_id))
shown_as MsgType.send_text msg = do (smsg, _) ← pop_reply msg; some (text smsg)
shown_as _ msg = some silent

-- The switch on the first of the incoming messages
unfoldable pub shown : Message → Option Shown
shown msg = shown_as msg.id msg
