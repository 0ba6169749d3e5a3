-- ===== src/Client.antt =====
-- CustomClient of client.cpp: the messages that it hands to `Send`. `none` is undefined behaviour of
-- `push_str`. The time of a ping is the bytes of a `time_point`, which the clock gives.
pub mod Arguments
pub mod Spelling
pub mod Assigned
pub mod Precedence
pub mod Session
pub mod Life
pub mod Loop
use servy.Prelude.{ℕ, List, Option}
use servy.Prelude.Text.{Text}
use servy.Machine.{Machine}
use servy.Run.{Run}
use servy.Message.{Message, MsgType, push, new}
use servy.Message.Strings.{push_str}
use servy.Archive.{Archive}

unfoldable pub ping_server : List ℕ → Message
ping_server time_now = push (new MsgType.server_ping) time_now

abbrev pub message_all : Message
message_all = new MsgType.message_all

abbrev pub qstatus : Message
qstatus = new MsgType.qstatus

unfoldable pub send_run : Archive → Run → Option Message
send_run a arun = push_str (new MsgType.send_run) (a.save_run arun)

unfoldable pub send_machine : Archive → Machine → Option Message
send_machine a amachine = push_str (new MsgType.send_machine) (a.save_machine amachine)

unfoldable pub send_text : Archive → Text → Option Message
send_text a s = push_str (new MsgType.send_text) (a.save_astr s)

unfoldable pub move_run_up : Archive → Run → Option Message
move_run_up a arun = push_str (new MsgType.move_run_up) (a.save_run arun)

unfoldable pub move_run_down : Archive → Run → Option Message
move_run_down a arun = push_str (new MsgType.move_run_down) (a.save_run arun)

unfoldable pub remove_run : Archive → Run → Option Message
remove_run a arun = push_str (new MsgType.remove_run) (a.save_run arun)
