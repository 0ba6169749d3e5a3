-- ===== src/Client/Session/Answers.antt =====
-- What the user is shown for a pick that the server answers (client.cpp, SimpleServer.cpp).
use servy.Prelude.{
  ◌>>=◌, ℕ, ◌+◌, ◌<◌, ◌^◌, ◌≡◌, refl, ap, sym, ◌∙◌, true, List, Option, none, some, length,
}
use mathlib.Core.Path.{subst}
use servy.Prelude.Int.{pos}
use servy.Prelude.Text.{Text, codes}
use servy.Message.{Message, MsgType, new, push, pop}
use servy.Message.RoundTrip.{pop-push}
use servy.Message.Strings.{no_nul, pop_reply}
use servy.Archive.{Archive, fix_version}
use servy.Status.{print_qstatus}
use servy.Client
use servy.Server.{Server, handle, on_message, send}
use servy.Server.Requests.{IsCarried}
use servy.Server.Replies.{Replied, status-Replied, text-Replied}
use servy.Client.Session.{Picked, sends, pick, sent, mstring, Shown, ping, text, shown, shown_as}

-- The picks that the server answers.
pub data Question : Type 0 where
  approval ping_back status : Question

abbrev pub number : Question → ℕ
number approval = 1
number ping_back = 2
number status = 4

abbrev pub answer : Server → List ℕ → Question → Shown
answer s now approval = text (codes "[APPROVED]")
answer s now ping_back = ping now
answer s now status = text (print_qstatus s.scheduler)

-- What the server does when it handles what a pick sends.
abbrev pub served : Archive → Server → ℕ → Picked → Option Server
served a s client (sends msg) = on_message a s client msg
served a s client _ = some s

-- The server has sent `client` one message, for which the client shows `seen`.
pub record Answered (s : Server) (client : ℕ) (seen : Shown) (result : Option Server) : Type 0 where
  pub msg : Message
  pub posted : result ≡ some (send s client msg)
  pub seen_as : shown msg ≡ some seen

shown_text :
    (msg left : Message) (smsg : Text)
    → msg.id ≡ MsgType.send_text
    → pop_reply msg ≡ some (smsg, left)
    → shown msg ≡ some (text smsg)
unfolding shown
shown_text msg left smsg h k = ap (λ kind. shown_as kind msg) h ∙ rw k

Replied-Answered :
    (s : Server) (client : ℕ) (smsg : Text) (result : Option Server)
    → Replied s client smsg result
    → Answered s client (text smsg) result
Replied-Answered s client smsg result r = record {
  msg = r.msg;
  posted = r.posted;
  seen_as = shown_text r.msg (new MsgType.send_text) smsg r.kind r.read;
}

ping_kind : (now : List ℕ) → (Client.ping_server now).id ≡ MsgType.server_ping
unfolding Client.ping_server push
ping_kind now = refl

time_popped :
    (now : List ℕ)
    → length now ≡ 8
    → pop (Client.ping_server now) 8 ≡ some (now, new MsgType.server_ping)
unfolding Client.ping_server
time_popped now h =
    subst (λ n. pop (push (new MsgType.server_ping) now) n ≡ some (now, new MsgType.server_ping)) h
      (pop-push (new MsgType.server_ping) now refl)

ping-Answered :
    (a : Archive) (s : Server) (client : ℕ) (now : List ℕ)
    → length now ≡ 8
    → Answered s client (ping now) (on_message a s client (Client.ping_server now))
unfolding shown on_message
ping-Answered a s client now h =
    let msg = Client.ping_server now in
    record {
      msg = msg;
      posted = ap (handle a s client msg) (ping_kind now);
      seen_as = ap (λ kind. shown_as kind msg) (ping_kind now) ∙ rw (time_popped now h);
    }

served-sent :
    (a : Archive) (s : Server) (client : ℕ) (o : Option Message)
    → (sent o >>= λ p. served a s client p) ≡ (o >>= on_message a s client)
served-sent a s client none = refl
served-sent a s client (some msg) = refl

-- The picks 1, 2 and 4 are answered by one message each, for which the client shows [APPROVED], the
-- time that it has sent itself, and the status text of the server, if the time has eight bytes, the
-- archive of the text can be carried and read, and the status text has no NUL and fits an `int`.
pub pick-Answered :
    (a : Archive) (s : Server) (client : ℕ) (now : List ℕ) (user astr : Text) (q : Question)
    → length now ≡ 8
    → IsCarried (a.save_astr mstring)
    → a.load_astr (fix_version (a.save_astr mstring)) ≡ some astr
    → no_nul (print_qstatus s.scheduler) ≡ true
    → length (print_qstatus s.scheduler) + 1 < 2 ^ 31
    → Answered s client
        (answer s now q)
        (pick a now user (pos (number q)) >>= λ p. served a s client p)
unfolding pick
pick-Answered a s client now user astr ping_back h c r p k = ping-Answered a s client now h
pick-Answered a s client now user astr status h c r p k =
    Replied-Answered s client _ _ (status-Replied a s client p k)
pick-Answered a s client now user astr approval h c r p k = Replied-Answered s client _ _ (
    subst (Replied s client _) (sym (served-sent a s client (Client.send_text a mstring)))
      (text-Replied a s client mstring astr c r))
