-- ===== src/Tests/Picks.antt =====
-- The picks of the user (main of client.cpp).
use servy.Prelude.{◌>>=◌, ℕ, ◌≡◌, refl, List, ◌++◌, some, arith}
use servy.Prelude.Int.{pos, negsuc}
use servy.Prelude.Text.{codes}
use servy.Message.{MsgType}
use servy.Message.Strings.{no_nul}
use servy.Archive.{fix_version}
use servy.Server.Requests.{IsCarried}
use servy.Client
use servy.Client.Session.{pick, mstring, nothing, quits, sends, shown, accepted, silent}
use servy.Client.Session.Answers.{ping_back, answer, served, Answered, pick-Answered}
use servy.Tests.Traffic.{header, sample, idle_server, status_plain, status_short}

abbrev now : List ℕ
now = codes "8 bytes."

mstring-IsCarried : IsCarried (sample.save_astr mstring)
unfolding no_nul
mstring-IsCarried = record { plain = refl; short = omega arith }

pick-Answered_example :
    Answered idle_server 1
      (answer idle_server now ping_back)
      (pick sample now (codes "ann") (pos 2) >>= λ p. served sample idle_server 1 p)
pick-Answered_example =
    pick-Answered sample idle_server 1 now (codes "ann") (fix_version (header ++ mstring)) ping_back
      refl mstring-IsCarried refl status_plain status_short

-- 0 quits, 4 asks for the status, and a pick without a meaning does nothing.
pick_zero : pick sample now (codes "ann") (pos 0) ≡ some quits
unfolding pick
pick_zero = refl

pick_four : pick sample now (codes "ann") (pos 4) ≡ some (sends Client.qstatus)
unfolding pick
pick_four = refl

pick_unknown : pick sample now (codes "ann") (negsuc 98) ≡ some nothing
unfolding pick
pick_unknown = refl

shown_welcome : shown (package.servy.Message.new MsgType.server_accept) ≡ some accepted
unfolding shown
shown_welcome = refl

shown_deny : shown (package.servy.Message.new MsgType.server_deny) ≡ some silent
unfolding shown
shown_deny = refl
