-- ===== src/Tests/Networks.antt =====
-- A network at work: client 1 sends a ping, which the server reads and handles.
use mathlib.Core.Path.{subst, fun_ext}
use mathlib.Core.List.{append_assoc, append-nil}
use servy.Prelude.{ℕ, ◌≡◌, refl, sym, inl, inr, List, [], ◌∷◌, ◌++◌, some, ◌==◌, Bool-cases, arith}
use servy.Run.{Run}
use servy.TsQueue.{front}
use servy.Message.{Message, OwnedMessage, MsgType, code_of, of_code, to_bytes, of_bytes, split_at}
use servy.Connection.{
  Owner, Buffer, send, write_header, header_bytes, on_read, on_header_read, add_to_incoming,
  read_header,
}
use servy.Connection.Wire.{IsFramed}
use servy.Connection.Arrival.{arrived, contents}
use servy.Connection.Link.{Link, LinkStep, sends, transfers, reads}
use servy.Scheduler.{Reach, init}
use servy.Server.{on_message, handle, send as post}
use servy.Server.Update.{deliver}
use servy.Network.{
  Network, put, posts_to, from_client, NetworkReach, here, next, link_works, update_handles,
}
use servy.Network.InTurn.{IsFreshNetwork, each_client_in_turn}
use servy.Network.Refines.{network_schedules}
use servy.Tests.Links.{ready}
use servy.Tests.Systems.{at_start}
use servy.Tests.Samples.{cluster}
use servy.Tests.Traffic.{sample}

abbrev pub ping : Message
ping = package.servy.Message.new MsgType.server_ping

pub ping-IsFramed : IsFramed ping
unfolding code_of of_code
ping-IsFramed = record { known = refl; narrow = omega arith; sized = refl; short = omega arith }

abbrev pub fresh : ℕ → Link
fresh k = record {
  a = record (ready Owner.server) { self = k };
  b = ready Owner.client;
  from_a = [];
  from_b = [];
  sent_a = [];
  sent_b = [];
}

abbrev pub start : Network
start = record { system = at_start; links = fresh; handled = [] }

pub start-IsFreshNetwork : IsFreshNetwork start
start-IsFreshNetwork = record {
  named = λ k. refl;
  owned = λ k. refl;
  to_clients = λ k. record {
    queue_empty = refl;
    no_write = refl;
    header_awaited = refl;
    no_body = refl;
    none_queued = refl;
    wire_empty = refl;
    none_sent = refl;
  };
  from_clients = λ k. record {
    queue_empty = refl;
    no_write = refl;
    header_awaited = refl;
    no_body = refl;
    none_queued = refl;
    wire_empty = refl;
    none_sent = refl;
  };
  queue_empty = refl;
  none_handled = refl;
}

-- The ping on its way: what is to be written, and what is on the wire.
abbrev pub moving : List ℕ → List ℕ → Link
moving left wire = record (fresh 1) {
  b = record (ready Owner.client) {
    messages_out = ping ∷ [];
    writes = record { what = Buffer.header; left = left } ∷ [];
  };
  from_b = wire;
  sent_b = ping ∷ [];
}

abbrev with_link : Link → Network
with_link l = record start { links = put fresh 1 l }

pub put-put : (l m : Link) → put (put fresh 1 l) 1 m ≡ put fresh 1 m
put-put l m = fun_ext (λ k. elim (Bool-cases (k == 1)) [ inl e ↦ rw e refl | inr e ↦ rw e refl ])

none_posted : posts_to 1 start.system.server.outbox ≡ []
unfolding posts_to
none_posted = refl

abbrev pub Any : Run → Type 0
Any r = Unit

moved :
    (left wire : List ℕ)
    → NetworkReach sample Any start (with_link (moving left wire))
    → NetworkReach sample Any start (with_link (moving [] (wire ++ left)))
moved [] wire r =
    subst (λ w. NetworkReach sample Any start (with_link (moving [] w))) (sym (append-nil wire)) r
moved (b ∷ left) wire r =
    let m = moving left (wire ++ b ∷ []) in
    let st : LinkStep (moving (b ∷ left) wire) m =
      inr (transfers Buffer.header b left [] [] refl refl refl) in
    let r' : NetworkReach sample Any start (with_link m) =
      subst (λ (f : ℕ → Link). NetworkReach sample Any start (record start { links = f }))
        (put-put (moving (b ∷ left) wire) m)
        (next r (link_works 1 m [] [] st refl tt none_posted refl)) in
    subst (λ w. NetworkReach sample Any start (with_link (moving [] w)))
      (append_assoc wire (b ∷ []) left) (moved left (wire ++ b ∷ []) r')

sent-Reach : NetworkReach sample Any start (with_link (moving (header_bytes ping) []))
unfolding send write_header front
sent-Reach = next here (
    link_works 1 (moving (header_bytes ping) []) [] []
      (inr (sends ping (moving (header_bytes ping) []).b refl refl)) refl tt none_posted refl)

abbrev pub letter : OwnedMessage
letter = record { remote = some 1; msg = ping }

abbrev pub arrived_link : Link
arrived_link = record (moving [] []) {
  a = record (fresh 1).a { temporary_in = ping; messages_in = letter ∷ [] };
}

abbrev pinged : Network
pinged = record start {
  system = record at_start { messages_in = letter ∷ [] };
  links = put (put fresh 1 (moving [] (header_bytes ping))) 1 arrived_link;
}

pinged-Reach : NetworkReach sample Any start pinged
unfolding on_read on_header_read add_to_incoming read_header header_bytes to_bytes code_of of_code
    of_bytes split_at
pinged-Reach = next (moved (header_bytes ping) [] sent-Reach) (
    link_works 1 arrived_link (letter ∷ []) []
      (inl (reads Buffer.header (header_bytes ping) [] [] [] refl refl refl refl)) refl
      ((λ r h. tt), tt) none_posted refl)

-- The server sends the ping back.
abbrev pub answered : Network
answered = record pinged {
  system = record at_start { server = record at_start.server { outbox = (1, ping) ∷ [] } };
  handled = letter ∷ [];
}

ping_handled : deliver sample at_start.server letter ≡ some answered.system.server
unfolding deliver on_message handle post
ping_handled = refl

pub answered-Reach : NetworkReach sample Any start answered
answered-Reach =
    next pinged-Reach (update_handles letter [] answered.system.server refl ping_handled refl)

each_client_in_turn_example :
    (done pending : List Message) × ((answered.links 1).sent_b ≡ done ++ pending)
    × (contents (from_client 1 (answered.handled ++ answered.system.messages_in)) ≡ arrived [] done)
each_client_in_turn_example =
    each_client_in_turn sample Any start answered 1 start-IsFreshNetwork answered-Reach
      (ping-IsFramed, tt)

network_schedules_example : Reach Any (init cluster) answered.system.server.scheduler
network_schedules_example = network_schedules sample Any start answered tt answered-Reach
