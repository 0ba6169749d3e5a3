-- ===== src/Server/System/Refines.antt =====
-- The whole server seen as the scheduler: what each step does to the state behind the mutex
-- (SimpleServer.cpp).
use servy.Prelude.{
  ℕ, ◌≡◌, refl, ap, sym, ◌⊎◌, inl, inr, Bool, true, false, List, [], ◌∷◌, Option, none, some, All,
  All-append, Option-cases, bound_some,
}
use mathlib.Core.Path.{subst}
use mathlib.Core.Option.{some-injective}
use servy.Machine.{Machine}
use servy.Run.{Run}
use servy.Prelude.Int.{◌≤ℤ◌}
use servy.Prelude.Text.{Text}
use servy.Message.{Message, MsgType, OwnedMessage, new}
use servy.Message.Strings.{push_reply}
use servy.Archive.{Archive}
use servy.Scheduler
use servy.Scheduler.{
  Scheduler, Step, start, end_run, Reach, starts, ends, sends, moves_up, moves_down, removes, init,
}
use servy.Scheduler.Safety.{IsFresh, never_overcommitted}
use servy.Scheduler.Books.{IsGood, load}
use servy.Server.{
  Server, send, handle, on_message, message_all_clients, with_scheduler, received_run,
  received_text, reply, visit,
}
use servy.Server.Accept.{on_accept, on_client_connect, close_client}
use servy.Server.Update.{deliver}
use servy.Server.System.{
  System, SystemStep, SystemReach, IsAllowed, run_starts, run_ends, message_arrives,
  message_handled, client_accepted, client_closes,
}

module _ (Accepts : Run → Type 0) where
  -- A step leaves the scheduler alone, or is one of its steps.
  abbrev Effect : Scheduler → Scheduler → Type 0
  Effect s t = (t ≡ s) ⊎ Step Accepts s t

  scheduler_of : (t s' : Server) → some t ≡ some s' → s'.scheduler ≡ t.scheduler
  scheduler_of t s' h = ap (λ (s : Server). s.scheduler) (sym (some-injective _ _ h))

  with_scheduler-some :
      (s s' : Server) (o : Option Scheduler) → with_scheduler s o ≡ some s' → o ≡ some s'.scheduler
  with_scheduler-some s s' none h = cc
  with_scheduler-some s s' (some t) h =
      ap some (sym (scheduler_of (record s { scheduler = t }) s' h))

  reply-scheduler :
      (s s' : Server) (client : ℕ) (text : Text)
      → reply s client text ≡ some s'
      → s'.scheduler ≡ s.scheduler
  unfolding reply send
  reply-scheduler s s' client text h =
      let (m, _, e) =
        bound_some (push_reply (new MsgType.send_text) text) (λ m. some (send s client m)) s' h in
      scheduler_of (send s client m) s' e

  message_all_clients-scheduler :
      (s s' : Server) (msg : Message) (ignore : Option ℕ)
      → message_all_clients s msg ignore ≡ some s'
      → s'.scheduler ≡ s.scheduler
  unfolding message_all_clients
  message_all_clients-scheduler s s' msg ignore h =
      let (v, _, e) = bound_some (visit s.conns msg ignore s.connections) _ s' h in
      ap (λ (s : Server). s.scheduler) (sym (some-injective _ _ e))

  module _ (a : Archive) (s s' : Server) (client : ℕ) (msg : Message) where
    handle-Effect :
        (id : MsgType)
        → ((r : Run) → received_run a msg ≡ some r → Accepts r)
        → handle a s client msg id ≡ some s'
        → Effect s.scheduler s'.scheduler
    unfolding handle send
    handle-Effect MsgType.server_ping h e = inl (scheduler_of (send s client msg) s' e)
    handle-Effect MsgType.message_all h e = inl (message_all_clients-scheduler s s' _ _ e)
    handle-Effect MsgType.send_run h e =
        let (r, got, e') = bound_some (received_run a msg) _ s' e in
        inr (
          sends r (h r got)
            (scheduler_of (record s { scheduler = Scheduler.send_run s.scheduler r }) s' e'))
    handle-Effect MsgType.move_run_up h e =
        let (r, got, e') = bound_some (received_run a msg) _ s' e in
        inr (
          moves_up r
            (scheduler_of (record s { scheduler = Scheduler.move_run_up s.scheduler r }) s' e'))
    handle-Effect MsgType.move_run_down h e =
        let (r, got, e') = bound_some (received_run a msg) _ s' e in
        inr (moves_down r (with_scheduler-some s s' (Scheduler.move_run_down s.scheduler r) e'))
    handle-Effect MsgType.remove_run h e =
        let (r, got, e') = bound_some (received_run a msg) _ s' e in
        inr (
          removes r
            (scheduler_of (record s { scheduler = Scheduler.remove_run s.scheduler r }) s' e'))
    handle-Effect MsgType.send_machine h e =
        let (ss, _, e') = bound_some (received_text msg) _ s' e in
        let (m, _, e'') = bound_some (a.load_machine ss) _ s' e' in inl (scheduler_of s s' e'')
    handle-Effect MsgType.send_text h e =
        let (ss, _, e') = bound_some (received_text msg) _ s' e in
        let (m, _, e'') = bound_some (a.load_astr ss) _ s' e' in
        inl (reply-scheduler s s' client _ e'')
    handle-Effect MsgType.qstatus h e = inl (reply-scheduler s s' client _ e)
    handle-Effect _ h e = inl (scheduler_of s s' e)

  deliver-Effect :
      (a : Archive) (s s' : Server) (m : OwnedMessage)
      → IsAllowed a Accepts m
      → deliver a s m ≡ some s'
      → Effect s.scheduler s'.scheduler
  unfolding deliver on_message
  deliver-Effect a s s' m h e = elim (Option-cases m.remote) [
    | inl k ↦ cc (rw k at e)
    | inr (client, k) ↦ handle-Effect a s s' client m.msg m.msg.id h (rw k at e)
  ]

  on_accept-scheduler :
      (ok : Bool) (client : ℕ) (is_open : Bool) (s : Server)
      → (on_accept ok client is_open s).scheduler ≡ s.scheduler
  unfolding on_accept on_client_connect send
  on_accept-scheduler false client is_open s = refl
  on_accept-scheduler true client is_open s = refl

  close_client-scheduler :
      (s : Server) (client : ℕ) → (close_client s client).scheduler ≡ s.scheduler
  unfolding close_client
  close_client-scheduler s client = refl

  abbrev IsQueued : Archive → System → Type 0
  IsQueued a s = All (IsAllowed a Accepts) s.messages_in

  -- What a step does to the scheduler, and to the messages that wait.
  SystemStep-Effect :
      (a : Archive) {s t : System}
      → SystemStep a Accepts s t
      → IsQueued a s
      → (Effect s.server.scheduler t.server.scheduler) × (IsQueued a t)
  SystemStep-Effect a {s} {t} (run_starts q h e) k = rw e (inr (starts h), k)
  SystemStep-Effect a {s} {t} (run_ends r pre post q p h e) k = rw e (inr (ends r pre post p h), k)
  SystemStep-Effect a {s} {t} (message_arrives m h e) k =
      rw e (inl refl, All-append (IsAllowed a Accepts) s.messages_in (m ∷ []) k (h, tt))
  SystemStep-Effect a {s} {t} (message_handled m rest server p h e) k =
      let all : All (IsAllowed a Accepts) (m ∷ rest) = subst (All (IsAllowed a Accepts)) p k in
      rw e (deliver-Effect a s.server server m all.0 h, all.1)
  SystemStep-Effect a {s} {t} (client_accepted ok client is_open e) k =
      rw e (inl (on_accept-scheduler ok client is_open s.server), k)
  SystemStep-Effect a {s} {t} (client_closes client e) k =
      rw e (inl (close_client-scheduler s.server client), k)

  extended : {s t u : Scheduler} → Reach Accepts s t → Effect t u → Reach Accepts s u
  extended {s} r (inl e) = subst (Reach Accepts s) (sym e) r
  extended r (inr st) = Reach.next r st

  reached :
      (a : Archive) {s t : System}
      → IsQueued a s
      → SystemReach a Accepts s t
      → (Reach Accepts s.server.scheduler t.server.scheduler) × (IsQueued a t)
  reached a k SystemReach.here = (Reach.here, k)
  reached a k (SystemReach.next r st) =
      let (abstract_run, k') = reached a k r in
      let (effect, k'') = SystemStep-Effect a st k' in (extended abstract_run effect, k'')

  -- The server refines the scheduler: in every state that it can lead to, however messages, clients
  -- and threads interleave, the state behind the mutex is one that the scheduler alone can reach
  -- with the runs that the messages carry.
  pub system_refines :
      (a : Archive) (s t : System)
      → All (IsAllowed a Accepts) s.messages_in
      → SystemReach a Accepts s t
      → Reach Accepts s.server.scheduler t.server.scheduler
  system_refines a s t k r = (reached a k r).0

-- From a server that has started with fresh machines and no message, whatever clients do, if the runs that
-- their messages carry have distinct machine names and no negative size, the runs that execute ask for no more cores of a machine than it has.
pub system_not_overcommitted :
    (a : Archive) (ms : List Machine) (s t : System)
    → All IsFresh ms
    → s.server.scheduler ≡ init ms
    → s.messages_in ≡ []
    → SystemReach a IsGood s t
    → All
        (λ cm.
          (load cm.name t.server.scheduler.threads ≤ℤ cm.size)
          × (cm.res ≡ load cm.name t.server.scheduler.threads))
        t.server.scheduler.mcluster
system_not_overcommitted a ms s t f e n r = never_overcommitted ms t.server.scheduler f (
    subst (λ q. Reach IsGood q t.server.scheduler) e
      (system_refines IsGood a s t (subst (All (IsAllowed a IsGood)) (sym n) tt) r))
