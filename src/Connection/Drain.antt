-- ===== src/Connection/Drain.antt =====
-- How what has been sent comes to arrive while both sockets stay open (net_connection.h).
use mathlib.Core.List.{append_assoc, append-nil}
use mathlib.Core.Path.{subst}
use servy.Prelude.{
  ℕ, zero, suc, ◌≡◌, ◌<◌, refl, ap, ◌∙◌, true, List, [], ◌∷◌, ◌++◌, length, length-append, arith,
  sym, All,
}
use servy.Message.{Message}
use servy.Connection.{
  Connection, Buffer, header, body, on_read, on_header_read, on_body_read, add_to_incoming,
  read_header, read_body, header_bytes,
}
use servy.Connection.Wire.{encode, encode_all, IsFramed, length-header_bytes}
use servy.Connection.Stream.{Stream, Step, reads, Reach, here, next}
use servy.Connection.Arrival.{arrived, contents}
use servy.Connection.Reading.{Reading, in_header, in_body, stopped}
use servy.Connection.Delivery.{
  IsEstablished, IsDelivering, IsEstablished-IsDelivering, Reach-IsDelivering, Step-IsDelivering,
}
use servy.Connection.Outcome.{at_rest, everything_arrives}
use servy.Connection.Flush.{flush, Reach-trans}

-- A read that can be done now, with the bytes that it takes.
record NextRead (c : Connection) (wire : List ℕ) : Type 0 where
  what : Buffer
  bytes : List ℕ
  others : List ℕ
  pending : c.reads ≡ record { what = what; count = length bytes } ∷ []
  taken : wire ≡ bytes ++ others
  some_bytes : 0 < length bytes
  stays_open : (d : Connection) → (on_read what true bytes d).is_open ≡ d.is_open

header_read-is_open :
    (bytes : List ℕ) (c : Connection) → (on_header_read true bytes c).is_open ≡ c.is_open
unfolding on_header_read add_to_incoming read_header read_body
header_read-is_open bytes c = ground arith

body_read-is_open :
    (bytes : List ℕ) (c : Connection) → (on_body_read true bytes c).is_open ≡ c.is_open
unfolding on_body_read add_to_incoming read_header
body_read-is_open bytes c = refl

next_header_read :
    (c : Connection) (b : ℕ) (wire : List ℕ) (pending : List Message)
    → c.reads ≡ record { what = header; count = 8 } ∷ []
    → b ∷ wire ≡ encode_all pending
    → NextRead c (b ∷ wire)
unfolding on_read encode_all encode
next_header_read c b wire [] r e = cc
next_header_read c b wire (m ∷ ms) r e = record {
  what = header;
  bytes = header_bytes m;
  others = m.body ++ encode_all ms;
  pending = rw (length-header_bytes m) r;
  taken = e ∙ append_assoc (header_bytes m) m.body (encode_all ms);
  some_bytes = omega (arith, length-header_bytes m);
  stays_open = header_read-is_open (header_bytes m);
}

next_read :
    (c : Connection) (done pending : List Message) (b : ℕ) (wire : List ℕ)
    → Reading c done pending (b ∷ wire)
    → c.is_open ≡ true
    → NextRead c (b ∷ wire)
unfolding on_read
next_read c done pending b wire (in_header r t e) o = next_header_read c b wire pending r e
next_read c done pending b wire (in_body m ms r i z p g e) o = record {
  what = body;
  bytes = m.body;
  others = encode_all ms;
  pending = r;
  taken = e;
  some_bytes = ground arith;
  stays_open = body_read-is_open m.body;
}
next_read c done pending b wire (stopped d r) o = cc

-- A state that steps of the receiver alone lead to, the wire being empty.
record Received (s : Stream) : Type 0 where
  last : Stream
  reach : Reach s last
  same_sender : last.sender ≡ s.sender
  is_open : last.receiver.is_open ≡ true
  wire_empty : last.wire ≡ []
  same_sent : last.sent ≡ s.sent

-- The receiver empties the wire, in fewer reads than it holds bytes.
receive :
    (n : ℕ) (s : Stream) (wire : List ℕ)
    → s.wire ≡ wire
    → length wire < n
    → IsDelivering s
    → All IsFramed s.sent
    → s.sender.is_open ≡ true
    → s.sender.writes ≡ []
    → s.receiver.is_open ≡ true
    → Received s
receive zero s wire e h v f o w p = absurd (omega arith)
receive (suc n) s [] e h v f o w p = record {
  last = s;
  reach = here;
  same_sender = refl;
  is_open = p;
  wire_empty = e;
  same_sent = refl;
}
receive (suc n) s (b ∷ wire) e h v f o w p =
    let (no_queue, no_rest) = at_rest s.sender v.rest v.writing o w in
    let stream : s.wire ++ v.rest ≡ b ∷ wire =
      ap (λ r. s.wire ++ r) no_rest ∙ append-nil s.wire ∙ e in
    let r =
      next_read s.receiver v.done v.pending b wire
        (subst (λ l. Reading s.receiver v.done v.pending l) stream v.reading_on) p in
    let t : Stream = record s {
      receiver = on_read r.what true r.bytes (record s.receiver { reads = [] });
      wire = r.others;
    } in
    let st : Step s t = reads r.what r.bytes r.others [] [] p r.pending (e ∙ r.taken) refl in
    let less : length r.others < n =
      let size = ap (λ (l : List ℕ). length l) r.taken in
      let some_bytes = r.some_bytes in omega (arith, size, length-append r.bytes r.others) in
    let rec =
      receive n t r.others refl less (Step-IsDelivering st f v) f o w (r.stays_open _ ∙ p) in
    record {
      last = rec.last;
      reach = Reach-trans (next here st) rec.reach;
      same_sender = rec.same_sender;
      is_open = rec.is_open;
      wire_empty = rec.wire_empty;
      same_sent = rec.same_sent;
    }

-- From every state of an established connection whose two sockets are open, steps of the two ends
-- lead to one in which every message that had been sent has arrived, in order, if all of them are
-- framed: header.size is the size of the body, and its type a value of 32 bits. A message without a
-- body has the body of the one before it.
pub can_drain :
    (s t : Stream)
    → IsEstablished s
    → Reach s t
    → t.sender.is_open ≡ true
    → t.receiver.is_open ≡ true
    → All IsFramed t.sent
    → (u : Stream) × Reach t u
      × (u.sent ≡ t.sent)
      × (contents u.receiver.messages_in ≡ arrived [] t.sent)
can_drain s t e r o p framed =
    let v = Reach-IsDelivering (IsEstablished-IsDelivering s e) r framed in
    let f = flush t v.rest v.writing o in
    let same : All IsFramed f.last.sent = subst (All IsFramed) (sym f.same_sent) framed in
    let at = Reach-IsDelivering v f.reach same in
    let open_end : f.last.receiver.is_open ≡ true =
      ap (λ (c : Connection). c.is_open) f.same_receiver ∙ p in
    let g =
      receive (suc (length f.last.wire)) f.last f.last.wire refl (omega arith) at same f.is_open
        f.pending open_end in
    let sent = g.same_sent ∙ f.same_sent in
    let all =
      everything_arrives s g.last e (Reach-trans r (Reach-trans f.reach g.reach))
        (ap (λ (c : Connection). c.is_open) g.same_sender ∙ f.is_open) g.is_open
        (ap (λ (c : Connection). c.writes) g.same_sender ∙ f.pending) g.wire_empty
        (subst (All IsFramed) (sym sent) framed) in
    (g.last, Reach-trans f.reach g.reach, sent, all.1 ∙ ap (arrived []) sent)
