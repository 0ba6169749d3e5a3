-- ===== src/Server/Posts.antt =====
-- What the server posts to its clients: a handler adds to the outbox, and takes nothing from it
-- (SimpleServer.cpp, net_server.h).
use servy.Prelude.{
  ℕ, ◌≡◌, refl, sym, ◌∙◌, inl, inr, Bool, true, false, List, [], ◌∷◌, ◌++◌, Option, none, some,
  Option-cases, bound_some,
}
use mathlib.Core.Path.{subst}
use mathlib.Core.List.{append-nil}
use mathlib.Core.Option.{some-injective}
use servy.Run.{Run}
use servy.Prelude.Text.{Text}
use servy.Message.{Message, MsgType, OwnedMessage, new}
use servy.Message.Strings.{push_reply}
use servy.Archive.{Archive}
use servy.Scheduler
use servy.Scheduler.{Scheduler}
use servy.Server.{
  Server, send, handle, on_message, message_all_clients, with_scheduler, received_run,
  received_text, reply, visit,
}
use servy.Server.Accept.{on_accept, on_client_connect, close_client}
use servy.Server.Update.{deliver}
use servy.Server.System.{
  System, SystemStep, run_starts, run_ends, message_arrives, message_handled, client_accepted,
  client_closes,
}

abbrev pub Grows : Server → Server → Type 0
Grows s t = (posts : List (ℕ × Message)) × (t.outbox ≡ s.outbox ++ posts)

-- A server with the same outbox.
same_posts : (s t : Server) → t.outbox ≡ s.outbox → Grows s t
same_posts s t e = ([], e ∙ sym (append-nil s.outbox))

module _ (s s' : Server) where
  kept : some s ≡ some s' → Grows s s'
  kept h = subst (Grows s) (some-injective _ _ h) (same_posts s s refl)

  sent-Grows : (client : ℕ) (msg : Message) → some (send s client msg) ≡ some s' → Grows s s'
  unfolding send
  sent-Grows client msg h = subst (Grows s) (some-injective _ _ h) ((client, msg) ∷ [], refl)

  with_scheduler-Grows : (o : Option Scheduler) → with_scheduler s o ≡ some s' → Grows s s'
  with_scheduler-Grows none h = cc
  with_scheduler-Grows (some t) h =
      subst (Grows s) (some-injective _ _ h) (same_posts s (record s { scheduler = t }) refl)

  reply-Grows : (client : ℕ) (text : Text) → reply s client text ≡ some s' → Grows s s'
  unfolding reply
  reply-Grows client text h =
      let (m, _, e) = bound_some (push_reply (new MsgType.send_text) text) _ s' h in
      sent-Grows client m e

  all-Grows :
      (msg : Message) (ignore : Option ℕ) → message_all_clients s msg ignore ≡ some s' → Grows s s'
  unfolding message_all_clients
  all-Grows msg ignore h =
      let (v, _, e) = bound_some (visit s.conns msg ignore s.connections) _ s' h in
      subst (Grows s) (some-injective _ _ e) (v.sent, refl)

  handle-Grows :
      (a : Archive) (client : ℕ) (msg : Message) (id : MsgType)
      → handle a s client msg id ≡ some s'
      → Grows s s'
  unfolding handle
  handle-Grows a client msg MsgType.server_ping e = sent-Grows client msg e
  handle-Grows a client msg MsgType.message_all e = all-Grows _ _ e
  handle-Grows a client msg MsgType.send_run e =
      let (r, _, e') = bound_some (received_run a msg) _ s' e in
      with_scheduler-Grows (some (Scheduler.send_run s.scheduler r)) e'
  handle-Grows a client msg MsgType.move_run_up e =
      let (r, _, e') = bound_some (received_run a msg) _ s' e in
      with_scheduler-Grows (some (Scheduler.move_run_up s.scheduler r)) e'
  handle-Grows a client msg MsgType.move_run_down e =
      let (r, _, e') = bound_some (received_run a msg) _ s' e in with_scheduler-Grows _ e'
  handle-Grows a client msg MsgType.remove_run e =
      let (r, _, e') = bound_some (received_run a msg) _ s' e in
      with_scheduler-Grows (some (Scheduler.remove_run s.scheduler r)) e'
  handle-Grows a client msg MsgType.send_machine e =
      let (ss, _, e') = bound_some (received_text msg) _ s' e in
      let (m, _, e'') = bound_some (a.load_machine ss) _ s' e' in kept e''
  handle-Grows a client msg MsgType.send_text e =
      let (ss, _, e') = bound_some (received_text msg) _ s' e in
      let (m, _, e'') = bound_some (a.load_astr ss) _ s' e' in reply-Grows client _ e''
  handle-Grows a client msg MsgType.qstatus e = reply-Grows client _ e
  handle-Grows a client msg _ e = kept e

pub deliver-Grows :
    (a : Archive) (s s' : Server) (m : OwnedMessage) → deliver a s m ≡ some s' → Grows s s'
unfolding deliver on_message
deliver-Grows a s s' m e = elim (Option-cases m.remote) [
  | inl k ↦ cc (rw k at e)
  | inr (client, k) ↦ handle-Grows s s' a client m.msg m.msg.id (rw k at e)
]

on_accept-Grows :
    (ok : Bool) (client : ℕ) (is_open : Bool) (s : Server) → Grows s (on_accept ok client is_open s)
unfolding on_accept on_client_connect send
on_accept-Grows false client is_open s = same_posts s s refl
on_accept-Grows true client is_open s = (_, refl)

pub close_client-Grows : (s : Server) (client : ℕ) → Grows s (close_client s client)
unfolding close_client
close_client-Grows s client = ([], sym (append-nil s.outbox))

pub SystemStep-Grows :
    (a : Archive) (Accepts : Run → Type 0) {s t : System}
    → SystemStep a Accepts s t
    → Grows s.server t.server
SystemStep-Grows a Accepts {s} {t} (run_starts q h e) =
    rw e (same_posts s.server (record s.server { scheduler = q }) refl)
SystemStep-Grows a Accepts {s} {t} (run_ends r pre post q p h e) =
    rw e (same_posts s.server (record s.server { scheduler = q }) refl)
SystemStep-Grows a Accepts {s} {t} (message_arrives m h e) =
    rw e (same_posts s.server s.server refl)
SystemStep-Grows a Accepts {s} {t} (message_handled m rest srv p h e) =
    rw e (deliver-Grows a s.server srv m h)
SystemStep-Grows a Accepts {s} {t} (client_accepted ok client is_open e) =
    rw e (on_accept-Grows ok client is_open s.server)
SystemStep-Grows a Accepts {s} {t} (client_closes client e) =
    rw e (close_client-Grows s.server client)
