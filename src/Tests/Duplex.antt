-- ===== src/Tests/Duplex.antt =====
-- A connection on which both ends send (net_connection.h).
use servy.Prelude.{◌≡◌, refl, inl, inr, List, [], ◌∷◌, ◌++◌}
use servy.TsQueue.{front}
use servy.Message.{Message, code_of, to_bytes}
use servy.Connection.{Owner, Buffer, send, write_header, header_bytes}
use servy.Connection.Delivery.{IsEstablished}
use servy.Connection.Arrival.{arrived, contents}
use servy.Connection.Link.{Link, swap, forward, LinkReach, here, next, sends}
use servy.Connection.Link.Both.{both_arrive_in_order}
use servy.Tests.Links.{ready, start-IsEstablished, note, note-IsFramed, bare, bare-IsFramed}

abbrev start : Link
start = record {
  a = ready Owner.server;
  b = ready Owner.client;
  from_a = [];
  from_b = [];
  sent_a = [];
  sent_b = [];
}

back-IsEstablished : IsEstablished (forward (swap start))
back-IsEstablished = record {
  queue_empty = refl;
  no_write = refl;
  header_awaited = refl;
  no_body = refl;
  none_queued = refl;
  wire_empty = refl;
  none_sent = refl;
}

-- The server sends a text, and the client a request.
abbrev server_sent : Link
server_sent = record start {
  a = record start.a {
    messages_out = note ∷ [];
    writes = record { what = Buffer.header; left = 5 ∷ 0 ∷ 0 ∷ 0 ∷ 2 ∷ 0 ∷ 0 ∷ 0 ∷ [] } ∷ [];
  };
  sent_a = note ∷ [];
}

abbrev both_sent : Link
both_sent = record server_sent {
  b = record start.b {
    messages_out = bare ∷ [];
    writes = record { what = Buffer.header; left = header_bytes bare } ∷ [];
  };
  sent_b = bare ∷ [];
}

both_sent-LinkReach : LinkReach start both_sent
unfolding send write_header front header_bytes to_bytes code_of
both_sent-LinkReach =
    next (next here (inl (sends note server_sent.a refl refl)))
      (inr (sends bare both_sent.b refl refl))

both_arrive_in_order_example :
    ((done pending : List Message) × (both_sent.sent_a ≡ done ++ pending)
      × (contents both_sent.b.messages_in ≡ arrived [] done))
    × ((done pending : List Message) × (both_sent.sent_b ≡ done ++ pending)
        × (contents both_sent.a.messages_in ≡ arrived [] done))
both_arrive_in_order_example =
    both_arrive_in_order start both_sent start-IsEstablished back-IsEstablished both_sent-LinkReach
      (note-IsFramed, tt) (bare-IsFramed, tt)
