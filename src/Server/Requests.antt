-- ===== src/Server/Requests.antt =====
-- What the server does with the messages that client.cpp builds.
use servy.Prelude.{
  ◌>>=◌, ℕ, ◌+◌, ◌<◌, ◌^◌, ◌≡◌, refl, ap, ◌∙◌, true, List, [], ◌∷◌, ◌++◌, Option, some, length,
}
use servy.Prelude.Text.{Text}
use servy.Run.{Run}
use servy.Message.{Message, MsgType, push}
use servy.Message.Strings.{no_nul, push_chars}
use servy.Message.RoundTrip.{push_str_fits, pop_str-packed, packed}
use servy.Archive.{Archive, fix_version}
use servy.Scheduler.{Scheduler}
use servy.Scheduler
use servy.Client
use servy.Server.{Server, handle, on_message, with_scheduler, received_text, received_run}

-- The four requests about a run.
pub data Request : Type 0 where
  sends ups downs removes : Request

-- The message that the client sends for a request.
unfoldable pub message_of : Archive → Request → Run → Option Message
message_of a sends r = Client.send_run a r
message_of a ups r = Client.move_run_up a r
message_of a downs r = Client.move_run_down a r
message_of a removes r = Client.remove_run a r

-- What the request asks of the scheduler.
unfoldable pub asked : Request → Scheduler → Run → Option Scheduler
asked sends s r = some (package.servy.Scheduler.send_run s r)
asked ups s r = some (package.servy.Scheduler.move_run_up s r)
asked downs s r = package.servy.Scheduler.move_run_down s r
asked removes s r = some (package.servy.Scheduler.remove_run s r)

-- A text that `push_str` can carry.
pub record IsCarried (s : Text) : Type 0 where
  pub plain : no_nul s ≡ true
  pub short : length s + 1 < 2 ^ 16

pub push_chars-id : (msg : Message) (cs : List ℕ) → (push_chars msg cs).id ≡ msg.id
unfolding push_chars push
push_chars-id msg [] = refl
push_chars-id msg (c ∷ cs) = push_chars-id msg cs

pub packed-id :
    (id : MsgType) (s : Text) (w : ℕ) → (packed (package.servy.Message.new id) s w).id ≡ id
unfolding push
packed-id id s w = push_chars-id (package.servy.Message.new id) (s ++ 0 ∷ [])

pub received-packed :
    (id : MsgType) (s : Text)
    → IsCarried s
    → received_text (packed (package.servy.Message.new id) s 2) ≡ some (fix_version s)
unfolding received_text
received-packed id s c = rw (pop_str-packed (package.servy.Message.new id) s refl c.plain c.short)

pub received_run-packed :
    (a : Archive) (id : MsgType) (r : Run)
    → IsCarried (a.save_run r)
    → a.load_run (fix_version (a.save_run r)) ≡ some r
    → received_run a (packed (package.servy.Message.new id) (a.save_run r) 2) ≡ some r
unfolding received_run
received_run-packed a id r c h = rw (received-packed id (a.save_run r) c) h

-- What `on_message` does with a message about a run, by the type of the message.
abbrev pub type_of : Request → MsgType
type_of sends = MsgType.send_run
type_of ups = MsgType.move_run_up
type_of downs = MsgType.move_run_down
type_of removes = MsgType.remove_run

pub message_of-packed :
    (a : Archive) (q : Request) (r : Run)
    → IsCarried (a.save_run r)
    → message_of a q r ≡ some (packed (package.servy.Message.new (type_of q)) (a.save_run r) 2)
unfolding message_of Client.send_run Client.move_run_up Client.move_run_down Client.remove_run
message_of-packed a sends r c = push_str_fits _ (a.save_run r) c.plain c.short
message_of-packed a ups r c = push_str_fits _ (a.save_run r) c.plain c.short
message_of-packed a downs r c = push_str_fits _ (a.save_run r) c.plain c.short
message_of-packed a removes r c = push_str_fits _ (a.save_run r) c.plain c.short

pub on_message_run :
    (a : Archive) (s : Server) (client : ℕ) (q : Request) (msg : Message) (r : Run)
    → msg.id ≡ type_of q
    → received_run a msg ≡ some r
    → on_message a s client msg ≡ with_scheduler s (asked q s.scheduler r)
unfolding on_message asked
on_message_run a s client sends msg r e h = ap (handle a s client msg) e ∙ rw h
on_message_run a s client ups msg r e h = ap (handle a s client msg) e ∙ rw h
on_message_run a s client downs msg r e h = ap (handle a s client msg) e ∙ rw h
on_message_run a s client removes msg r e h = ap (handle a s client msg) e ∙ rw h

-- A request about a run, sent by the client and received by the server, changes the scheduler as it
-- asks and nothing else; it is defined exactly where that change is.
pub requests_arrive :
    (a : Archive) (s : Server) (client : ℕ) (q : Request) (r : Run)
    → IsCarried (a.save_run r)
    → a.load_run (fix_version (a.save_run r)) ≡ some r
    → (message_of a q r >>= on_message a s client) ≡ with_scheduler s (asked q s.scheduler r)
requests_arrive a s client q r c h = rw (message_of-packed a q r c) (
    on_message_run a s client q _ r (packed-id (type_of q) (a.save_run r) 2)
      (received_run-packed a (type_of q) r c h))
