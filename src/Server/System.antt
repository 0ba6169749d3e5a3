-- ===== src/Server/System.antt =====
-- The whole server beside its clients: the main thread in `Update`, the thread that starts runs, the
-- threads that execute them, and the asio context that queues messages and accepts clients
-- (SimpleServer.cpp, net_server.h). A message is handled in one step: `OnMessage` takes the mutex
-- of the scheduler once.
pub mod Refines
use servy.Prelude.{
  ◌>>=◌, ℕ, ◌≡◌, refl, ap, sym, ◌∙◌, ◌⊎◌, inl, inr, Bool, true, List, [], ◌∷◌, ◌++◌, Option, none,
  some, All, All-append, bound_some, if◌then◌else◌,
}
use mathlib.Core.Path.{subst}
use mathlib.Core.Option.{some-injective}
use servy.Machine.{Machine}
use servy.Run.{Run}
use servy.Message.{Message, MsgType, OwnedMessage}
use servy.Archive.{Archive}
use servy.Scheduler.{Scheduler, start, end_run}
use servy.Server.{
  Server, send, handle, on_message, message_all_clients, with_scheduler, received_run,
  received_text, reply,
}
use servy.Server.Accept.{on_accept, close_client}
use servy.Server.Update.{deliver}

pub record System : Type 0 where
  pub server : Server
  pub messages_in : List OwnedMessage

-- A run that the message carries is one that may be sent.
abbrev pub IsAllowed : Archive → (Run → Type 0) → OwnedMessage → Type 0
IsAllowed a Accepts m = (r : Run) → received_run a m.msg ≡ some r → Accepts r

abbrev on_scheduler : System → Scheduler → System
on_scheduler s t = record s { server = record s.server { scheduler = t } }

pub data SystemStep (a : Archive) (Accepts : Run → Type 0) (s t : System) : Type 0 where
  run_starts :
      (q : Scheduler)
      → start s.server.scheduler ≡ some q
      → t ≡ on_scheduler s q
      → SystemStep a Accepts s t
  run_ends :
      (arun : Run) (pre post : List Run) (q : Scheduler)
      → s.server.scheduler.threads ≡ pre ++ arun ∷ post
      → end_run arun (record s.server.scheduler { threads = pre ++ post }) ≡ some q
      → t ≡ on_scheduler s q
      → SystemStep a Accepts s t
  message_arrives :
      (m : OwnedMessage)
      → IsAllowed a Accepts m
      → t ≡ record s { messages_in = s.messages_in ++ m ∷ [] }
      → SystemStep a Accepts s t
  message_handled :
      (m : OwnedMessage) (rest : List OwnedMessage) (server : Server)
      → s.messages_in ≡ m ∷ rest
      → deliver a s.server m ≡ some server
      → t ≡ record { server = server; messages_in = rest }
      → SystemStep a Accepts s t
  client_accepted :
      (ok : Bool) (client : ℕ) (is_open : Bool)
      → t ≡ record s { server = on_accept ok client is_open s.server }
      → SystemStep a Accepts s t
  client_closes :
      (client : ℕ)
      → t ≡ record s { server = close_client s.server client }
      → SystemStep a Accepts s t

pub data SystemReach (a : Archive) (Accepts : Run → Type 0) (s : System) : System → Type 0 where
  here : SystemReach a Accepts s s
  next :
      {t u : System}
      → SystemReach a Accepts s t
      → SystemStep a Accepts t u
      → SystemReach a Accepts s u
