-- ===== src/Network/Refines.antt =====
-- The network of connections as a run of the server (net_server.h, SimpleServer.cpp).
use servy.Prelude.{Bool, true, false, ℕ, refl, sym, List, [], ◌∷◌, ◌++◌, All}
use mathlib.Core.Path.{subst}
use mathlib.Core.List.{append_assoc, append-nil}
use servy.Run.{Run}
use servy.Message.{OwnedMessage}
use servy.Archive.{Archive}
use servy.Scheduler.{Reach}
use servy.Server.System.{
  System, SystemReach, IsAllowed, message_arrives, message_handled, client_closes,
}
use servy.Server.System
use servy.Server.System.Refines.{system_refines}
use servy.Network.{
  with_socket, Network, link_works, update_handles, others_work, NetworkReach, here, next,
}

module _ (a : Archive) (Accepts : Run → Type 0) where
  -- Messages that arrive one after the other.
  one_by_one :
      (s t : System) (new : List OwnedMessage)
      → All (IsAllowed a Accepts) new
      → SystemReach a Accepts s t
      → SystemReach a Accepts s (record t { messages_in = t.messages_in ++ new })
  one_by_one s t [] h r =
      subst (λ q. SystemReach a Accepts s (record t { messages_in = q }))
        (sym (append-nil t.messages_in)) r
  one_by_one s t (o ∷ new) h r =
      let u = record t { messages_in = t.messages_in ++ o ∷ [] } in
      subst (λ q. SystemReach a Accepts s (record t { messages_in = q }))
        (append_assoc t.messages_in (o ∷ []) new)
        (one_by_one s u new h.1 (System.next r (message_arrives o h.0 refl)))

  socket_changes :
      (up : Bool) (k : ℕ) (s t : System)
      → SystemReach a Accepts s t
      → SystemReach a Accepts s (record t { server = with_socket up t.server k })
  socket_changes true k s t r = r
  socket_changes false k s t r = System.next r (client_closes k refl)

  -- What the network does is a run of the server's threads and of arriving messages.
  pub network_refines :
      {n p : Network} → NetworkReach a Accepts n p → SystemReach a Accepts n.system p.system
  network_refines here = System.here
  network_refines {n} (next {m} {p} r (link_works k l new _ st e h _ q)) =
      subst (λ (x : Network). SystemReach a Accepts n.system x.system) (sym q)
        (socket_changes l.a.is_open k n.system _
          (one_by_one n.system m.system new h (network_refines r)))
  network_refines {n} (next {m} {p} r (update_handles o rest srv h d q)) =
      subst (λ (x : Network). SystemReach a Accepts n.system x.system) (sym q)
        (System.next (network_refines r) (message_handled o rest srv h d refl))
  network_refines {n} (next {m} {p} r (others_work s st h q)) =
      subst (λ (x : Network). SystemReach a Accepts n.system x.system) (sym q)
        (System.next (network_refines r) st)

  -- The server with its connections refines the scheduler: in every state that the network can lead
  -- to, however the two ends of each link, `Update` and the threads of the server interleave, the
  -- state behind the mutex is one that the scheduler alone can reach with the runs that the messages
  -- carry.
  pub network_schedules :
      (n p : Network)
      → All (IsAllowed a Accepts) n.system.messages_in
      → NetworkReach a Accepts n p
      → Reach Accepts n.system.server.scheduler p.system.server.scheduler
  network_schedules n p k r = system_refines Accepts a n.system p.system k (network_refines r)
