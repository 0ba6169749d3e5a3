-- ===== src/Client/Loop.antt =====
-- The loop of main in client.cpp, round by round. What other threads bring is an input of each round:
-- the pick, what arrives, and whether the socket is open at each of the calls that look at it. `none`
-- is undefined behaviour.
pub mod Talk
pub mod Kinds
pub mod Once
pub mod Defined
pub mod Ends
use servy.Prelude.{
  ◌>>=◌, ℕ, Bool, true, false, not, List, [], ◌∷◌, ◌++◌, Option, none, some, if◌then◌else◌,
}
use servy.Prelude.Int.{ℤ}
use servy.Prelude.Text.{Text}
use servy.Run
use servy.MachineList.{get_machines}
use servy.Message.{Message}
use servy.Archive.{Archive}
use servy.Client
use servy.Client.Arguments.{Settings}
use servy.Client.Session.{Picked, nothing, quits, sends, pick, Shown, shown}

pub record Seen : Type 0 where
  -- `usrpick`, where `gotnews` is set
  pub news : Option ℤ
  -- the clock, for a ping
  pub now : List ℕ
  -- what has arrived since the round before
  pub arrives : List Message
  -- IsConnected in SendRun, in the call of the pick, and in the loop itself
  pub up_run : Bool
  pub up_pick : Bool
  pub up_loop : Bool
  -- the reader's thread ends, so that `t1.join()` returns: it has seen bQuit, or takes another number
  pub joins : Bool

pub record Main : Type 0 where
  pub sendrun : Bool
  pub quit : Bool
  -- main waits in `t1.join()` for a thread that does not end
  pub joining : Bool
  pub incoming : List Message
  -- what has been handed to the connection, and what has been written to the console
  pub sent : List Message
  pub screen : List Shown
  -- everything that has arrived
  pub arrived : List Message

abbrev pub start : Bool → Main
start sendrun = record {
  sendrun = sendrun;
  quit = false;
  joining = false;
  incoming = [];
  sent = [];
  screen = [];
  arrived = [];
}

-- client_interface::Send
unfoldable pub hand_over : Bool → Message → Main → Main
hand_over up msg m = if up then record m { sent = m.sent ++ msg ∷ [] } else m

-- The message of the run of the arguments.
unfoldable pub run_message : Archive → Settings → Option Message
run_message a s = do
  ivm ← get_machines s.machstr
  Client.send_run a (package.servy.Run.new s.user s.id s.dir s.simfile s.run_cmd ivm)

-- `if (sendrun)`
unfoldable pub send_first : Archive → Settings → Seen → Main → Option Main
send_first a s seen m =
    if m.sendrun
    then (do msg ← run_message a s; some (record (hand_over seen.up_run msg m) { sendrun = false }))
    else some m

-- `bQuit = true; t1.join();`
abbrev pub quit_and_join : Seen → Main → Main
quit_and_join seen m = record m { quit = true; joining = not seen.joins }

abbrev pub picked : Picked → Seen → Main → Main
picked nothing seen m = m
picked quits seen m = quit_and_join seen m
picked (sends msg) seen m = hand_over seen.up_pick msg m

abbrev pub answer_to : Option ℤ → Archive → Settings → Seen → Main → Option Main
answer_to none a s seen m = some m
answer_to (some usrpick) a s seen m = do p ← pick a seen.now s.user usrpick; some (picked p seen m)

-- `if(gotnews)`
unfoldable pub send_pick : Archive → Settings → Seen → Main → Option Main
send_pick a s seen m = answer_to seen.news a s seen m

abbrev pub show_first : List Message → Main → Option Main
show_first [] m = some m
show_first (msg ∷ rest) m = do
  s ← shown msg
  some (record m { incoming = rest; screen = m.screen ++ s ∷ [] })

-- `if (c.IsConnected())`
unfoldable pub receive : Seen → Main → Option Main
receive seen m = if seen.up_loop then show_first m.incoming m else some (quit_and_join seen m)

-- One round. The pick 0 leaves the loop before the rest of the round.
unfoldable pub round : Archive → Settings → Seen → Main → Option Main
round a s seen m = do
  let m₀ = record m { incoming = m.incoming ++ seen.arrives; arrived = m.arrived ++ seen.arrives }
  m₁ ← send_first a s seen m₀
  m₂ ← send_pick a s seen m₁
  if m₂.quit then some m₂ else receive seen m₂

-- `while (!bQuit)`, for the rounds that the inputs describe
unfoldable pub rounds : Archive → Settings → List Seen → Main → Option Main
rounds a s [] m = some m
rounds a s (seen ∷ more) m =
    if m.quit then some m else (round a s seen m >>= λ m'. rounds a s more m')
