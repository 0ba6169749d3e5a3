-- ===== src/Tests/Links.antt =====
-- A connection at work: one message from the server to the client (net_connection.h).
use mathlib.Core.List.{append_assoc, append-nil}
use mathlib.Core.Path.{subst}
use servy.Prelude.{
  ℕ, ◌≡◌, ◌≢◌, refl, sym, true, false, List, [], ◌∷◌, ◌++◌, some, none, arith, length,
}
use servy.TsQueue.{front, pop_front}
use servy.Message.{Message, MsgType, code_of, of_code, to_bytes, of_bytes, split_at}
use servy.Connection.{
  Connection, Owner, Buffer, new, send, close, write_header, write_body, next_message, header_bytes,
  on_written, on_header_written, on_body_written, on_read, on_header_read, on_body_read,
  on_validation_read, read_header, read_body, add_to_incoming, resize, connect_to_client,
}
use servy.Connection.Wire.{IsFramed}
use servy.Connection.Stream.{Stream, Step, sends, transfers, completes, reads, Reach, here, next}
use servy.Connection.Arrival.{arrived, contents}
use servy.Connection.Delivery.{IsEstablished}
use servy.Connection.Outcome.{IsOrderly, writes_in_turn, everything_arrives, stale_body}
use servy.Connection.Flush.{Reach-trans}
use servy.Connection.Drain.{can_drain}
use servy.Connection.Handshake.{
  shake_hands, written, handshake_establishes, server_decides, writes_overlap,
  early_message_rejected,
}

-- One end, after the handshake.
abbrev pub ready : Owner → Connection
ready owner = record {
  self = 1;
  owner = owner;
  id = 10000;
  is_open = true;
  messages_out = [];
  temporary_in = package.servy.Message.new MsgType.server_accept;
  handshake_out = 5;
  handshake_in = 6;
  handshake_check = 6;
  writes = [];
  reads = record { what = Buffer.header; count = 8 } ∷ [];
  messages_in = [];
}

abbrev pub start : Stream
start = record { sender = ready Owner.server; receiver = ready Owner.client; wire = []; sent = [] }

pub start-IsEstablished : IsEstablished start
start-IsEstablished = record {
  queue_empty = refl;
  no_write = refl;
  header_awaited = refl;
  no_body = refl;
  none_queued = refl;
  wire_empty = refl;
  none_sent = refl;
}

abbrev pub note : Message
note = record { id = MsgType.send_text; size = 2; body = 104 ∷ 105 ∷ [] }

pub note-IsFramed : IsFramed note
unfolding code_of of_code
note-IsFramed = record { known = refl; narrow = omega arith; sized = refl; short = omega arith }

abbrev under_way : Stream
under_way = record start {
  sender = record start.sender {
    messages_out = note ∷ [];
    writes = record { what = Buffer.header; left = 5 ∷ 0 ∷ 0 ∷ 0 ∷ 2 ∷ 0 ∷ 0 ∷ 0 ∷ [] } ∷ [];
  };
  sent = note ∷ [];
}

under_way-Reach : Reach start under_way
unfolding send write_header front header_bytes to_bytes code_of
under_way-Reach = next here (sends note under_way.sender refl refl)

-- The bytes of a pending write, moved to the wire.
to_wire :
    (what : Buffer) (left : List ℕ) (s : Stream)
    → s.sender.is_open ≡ true
    → s.sender.writes ≡ record { what = what; left = left } ∷ []
    → Reach s (record s {
      sender = record s.sender { writes = record { what = what; left = [] } ∷ [] };
      wire = s.wire ++ left;
    })
to_wire what [] s o w =
    subst (λ t. Reach s t)
      (λ i. record s {
        sender = record s.sender { writes = w i };
        wire = sym (append-nil s.wire) i;
      })
      here
to_wire what (b ∷ left) s o w =
    let t : Stream = record s {
      sender = record s.sender { writes = record { what = what; left = left } ∷ [] };
      wire = s.wire ++ b ∷ [];
    } in
    let st : Step s t = transfers what b left [] [] o w refl in
    subst (λ u. Reach s u)
      (λ i. record s {
        sender = record s.sender { writes = record { what = what; left = [] } ∷ [] };
        wire = append_assoc s.wire (b ∷ []) left i;
      })
      (Reach-trans (next here st) (to_wire what left t o refl))

abbrev header_sent : Stream
header_sent = record under_way {
  sender = record under_way.sender {
    writes = record { what = Buffer.body; left = note.body } ∷ [];
  };
  wire = 5 ∷ 0 ∷ 0 ∷ 0 ∷ 2 ∷ 0 ∷ 0 ∷ 0 ∷ [];
}

header_sent-Reach : Reach start header_sent
unfolding on_written on_header_written write_body front
header_sent-Reach =
    next (Reach-trans under_way-Reach (to_wire Buffer.header header_sent.wire under_way refl refl))
      (completes Buffer.header [] [] header_sent.sender refl refl refl)

abbrev all_sent : Stream
all_sent = record header_sent {
  sender = start.sender;
  wire = 5 ∷ 0 ∷ 0 ∷ 0 ∷ 2 ∷ 0 ∷ 0 ∷ 0 ∷ 104 ∷ 105 ∷ [];
}

all_sent-Reach : Reach start all_sent
unfolding on_written on_body_written next_message pop_front
all_sent-Reach =
    next (Reach-trans header_sent-Reach (to_wire Buffer.body note.body header_sent refl refl))
      (completes Buffer.body [] [] start.sender refl refl refl)

abbrev header_here : Stream
header_here = record all_sent {
  receiver = record start.receiver {
    temporary_in = record { id = MsgType.send_text; size = 2; body = 0 ∷ 0 ∷ [] };
    reads = record { what = Buffer.body; count = 2 } ∷ [];
  };
  wire = 104 ∷ 105 ∷ [];
}

header_here-Reach : Reach start header_here
unfolding on_read on_header_read read_body split_at of_bytes of_code resize
header_here-Reach = next all_sent-Reach (
    reads Buffer.header (5 ∷ 0 ∷ 0 ∷ 0 ∷ 2 ∷ 0 ∷ 0 ∷ 0 ∷ []) (104 ∷ 105 ∷ []) [] [] refl refl refl
      refl)

abbrev all_here : Stream
all_here = record all_sent {
  receiver = record start.receiver {
    temporary_in = note;
    messages_in = record { remote = none; msg = note } ∷ [];
  };
  wire = [];
}

all_here-Reach : Reach start all_here
unfolding on_read on_body_read add_to_incoming read_header
all_here-Reach =
    next header_here-Reach (reads Buffer.body (104 ∷ 105 ∷ []) [] [] [] refl refl refl refl)

everything_arrives_example :
    (all_here.sender.messages_out ≡ [])
    × (contents all_here.receiver.messages_in ≡ arrived [] (note ∷ []))
everything_arrives_example =
    everything_arrives start all_here start-IsEstablished all_here-Reach refl refl refl refl
      (note-IsFramed, tt)

can_drain_example :
    (u : Stream) × Reach under_way u
    × (u.sent ≡ note ∷ [])
    × (contents u.receiver.messages_in ≡ arrived [] (note ∷ []))
can_drain_example =
    can_drain start under_way start-IsEstablished under_way-Reach refl refl (note-IsFramed, tt)

writes_in_turn_example : IsOrderly header_sent.sender
writes_in_turn_example = writes_in_turn start header_sent start-IsEstablished header_sent-Reach

-- A status request, which has no body, behind a text.
abbrev pub bare : Message
bare = package.servy.Message.new MsgType.qstatus

pub bare-IsFramed : IsFramed bare
unfolding code_of of_code
bare-IsFramed = record { known = refl; narrow = omega arith; sized = refl; short = omega arith }

stale_body_example :
    contents (on_read Buffer.header true (header_bytes bare) all_here.receiver).messages_in
    ≡ note ∷ record bare { body = note.body } ∷ []
unfolding on_read contents
stale_body_example = stale_body all_here.receiver bare bare-IsFramed refl

handshake_establishes_example :
    (s c : Connection) × (shake_hands 1234567 10000 1 2 ≡ some (s, c))
    × (s.is_open ≡ true)
    × (c.is_open ≡ true)
    × (s.id ≡ 10000)
    × IsEstablished (record { sender = s; receiver = c; wire = []; sent = [] })
    × IsEstablished (record { sender = c; receiver = s; wire = []; sent = [] })
handshake_establishes_example = handshake_establishes 1234567 10000 1 2

server_decides_example :
    (of_bytes (1 ∷ 2 ∷ []) ≡ 6
      → on_validation_read true (1 ∷ 2 ∷ []) (ready Owner.server)
        ≡ read_header (record (ready Owner.server) { handshake_in = of_bytes (1 ∷ 2 ∷ []) }))
    × (of_bytes (1 ∷ 2 ∷ []) ≢ 6
        → on_validation_read true (1 ∷ 2 ∷ []) (ready Owner.server)
          ≡ close (record (ready Owner.server) { handshake_in = of_bytes (1 ∷ 2 ∷ []) }))
server_decides_example = server_decides (ready Owner.server) (1 ∷ 2 ∷ []) refl

writes_overlap_example :
    (c : Connection) × (send (connect_to_client (new Owner.server 1 true 5) 10000) note ≡ some c)
    × (length c.writes ≡ 2)
writes_overlap_example = writes_overlap 5 10000 1 note

note_is_no_answer : of_bytes (header_bytes note) ≢ 6
unfolding of_bytes header_bytes to_bytes code_of
note_is_no_answer = omega arith

early_message_rejected_example :
    (c : Connection) × (send (ready Owner.client) note ≡ some c)
    × ((on_validation_read true (written c.writes) (ready Owner.server)).is_open ≡ false)
early_message_rejected_example =
    early_message_rejected (ready Owner.server) (ready Owner.client) note refl refl refl
      note_is_no_answer
