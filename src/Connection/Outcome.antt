-- ===== src/Connection/Outcome.antt =====
-- What the invariant of delivery comes to (net_connection.h): for the pending writes, for the queue
-- that the handlers read, for two ends at rest, and for messages without a body.
use servy.Prelude.{
  ℕ, ◌≡◌, ◌≤◌, refl, ap, sym, ◌∙◌, true, false, List, [], ◌∷◌, ◌++◌, some, length, length-append,
  arith, ltb, All, All-append_left,
}
use mathlib.Core.Path.{subst, ap₂}
use mathlib.Core.List.{append-nil}
use servy.Message.{Message}
use servy.Connection.{
  add_to_incoming, read_header, Connection, Buffer, Write, send, on_written, on_header_read,
  header_bytes,
}
use servy.Connection.Wire.{encode, encode_all, IsFramed, length-header_bytes}
use servy.Connection.Stream.{
  Stream, Step, sends, transfers, completes, write_fails, reads, read_fails, sender_reads,
  receiver_writes, sender_closes, receiver_closes, Reach, here, next,
}
use servy.Connection.Writing.{
  Writing, idle, in_header, in_body, stopped, same-Writing, close-Writing,
}
use servy.Connection.Sending.{send-Writing, transfer-Writing, completes-Writing, fails-Writing}
use servy.Connection.Arrival.{arrived, contents, delivered_body, delivered_body_some, contents-snoc}
use servy.Connection.Reading.{Reading}
use servy.Connection.Receiving.{header_read_none}
use servy.Connection.Delivery.{IsEstablished, IsEstablished-IsDelivering, Reach-IsDelivering}

one_write-Writing : (c : Connection) (rest : List ℕ) → Writing c rest → length c.writes ≤ 1
one_write-Writing c rest (idle o w r) = rw w (omega arith)
one_write-Writing c rest (in_header m q left o w r) = rw w (omega arith)
one_write-Writing c rest (in_body m q left o w r) = rw w (omega arith)
one_write-Writing c rest (stopped m q o w d) = rw w (omega arith)

-- What an end still has to write is known in every state, whatever it sends.
abbrev HasWriting : Stream → Type 0
HasWriting s = (rest : List ℕ) × Writing s.sender rest

Step-Writing : {s t : Stream} → Step s t → HasWriting s → HasWriting t
Step-Writing {s} (sends m c h e) (rest, v) =
    let (c', k, w) = send-Writing s.sender rest m v in
    rw e (rest ++ encode m, subst (λ d. Writing d (rest ++ encode m)) (cc k) w)
Step-Writing {s} (transfers what b left pre post o h e) (rest, v) =
    let (rest', _, w) = transfer-Writing s.sender rest what b left pre post v h in rw e (rest', w)
Step-Writing {s} (completes what pre post c h k e) (rest, v) =
    let (c', k', w) = completes-Writing s.sender rest what pre post v h in
    rw e (rest, subst (λ d. Writing d rest) (cc k') w)
Step-Writing {s} (write_fails w pre post c h k e) (rest, v) =
    rw e (rest, fails-Writing s.sender c rest w pre post v h k)
Step-Writing {s} (reads what bytes rest' pre post o h w e) v = rw e v
Step-Writing {s} (read_fails r pre post bytes h e) v = rw e v
Step-Writing {s} (sender_reads c same e) (rest, v) =
    rw e (rest, same-Writing s.sender c rest same v)
Step-Writing {s} (receiver_writes c same e) v = rw e v
Step-Writing {s} (sender_closes e) (rest, v) = rw e (rest, close-Writing s.sender rest v)
Step-Writing {s} (receiver_closes e) v = rw e v

pub Reach-Writing : {s t : Stream} → HasWriting s → Reach s t → HasWriting t
Reach-Writing v here = v
Reach-Writing v (next r st) = Step-Writing st (Reach-Writing v r)

-- What asio asks of a program, and what the handlers ask of the queue.
pub record IsOrderly (c : Connection) : Type 0 where
  pub one_write : length c.writes ≤ 1
  pub send_defined : (msg : Message) → (c' : Connection) × (send c msg ≡ some c')
  pub written_defined :
      (what : Buffer) (pre post : List Write)
      → c.writes ≡ pre ++ record { what = what; left = [] } ∷ post
      → (c' : Connection) × (on_written what true (record c { writes = pre ++ post }) ≡ some c')

-- In every state that an established connection can lead to, at most one write is pending on the
-- sender's socket, and neither `Send` nor the handler of a write that is done finds the queue empty
-- where it reads its front.
pub writes_in_turn : (s t : Stream) → IsEstablished s → Reach s t → IsOrderly t.sender
writes_in_turn s t e r =
    let (rest, v) = Reach-Writing ([], idle e.queue_empty e.no_write refl) r in
    record {
      one_write = one_write-Writing t.sender rest v;
      send_defined = λ msg. let (c', k, w) = send-Writing t.sender rest msg v in (c', k);
      written_defined = λ what pre post h.
          let (c', k, w) = completes-Writing t.sender rest what pre post v h in (c', k);
    }

-- Nothing is left to write, once no write is pending on an open socket.
pub at_rest :
    (c : Connection) (rest : List ℕ)
    → Writing c rest
    → c.is_open ≡ true
    → c.writes ≡ []
    → (c.messages_out ≡ []) × (rest ≡ [])
at_rest c rest (idle o w r) h n = (o, r)
at_rest c rest (in_header m q left o w r) h n = cc
at_rest c rest (in_body m q left o w r) h n = cc
at_rest c rest (stopped m q o w d) h n = cc

encode_all_nil : (ms : List Message) → [] ≡ encode_all ms → ms ≡ []
unfolding encode_all encode
encode_all_nil [] h = refl
encode_all_nil (m ∷ ms) h = absurd (
    omega (
      arith,
      ap (λ (l : List ℕ). length l) h,
      length-append (header_bytes m ++ m.body) (encode_all ms),
      length-append (header_bytes m) m.body,
      length-header_bytes m,
    ))

none_pending :
    (c : Connection) (done pending : List Message)
    → Reading c done pending []
    → c.is_open ≡ true
    → pending ≡ []
none_pending c done pending (Reading.in_header r t e) h = encode_all_nil pending e
none_pending c done pending (Reading.in_body m ms r i z p g e) h =
    let size = ap (λ (l : List ℕ). length l) e in
    absurd (ground (arith, size, length-append m.body (encode_all ms)))
none_pending c done pending (Reading.stopped d r) h = cc

-- Once the sender has no write pending, the wire is empty and both sockets are open, every message
-- that was sent has arrived, in order, if all of them are framed: header.size is the size of the
-- body, and its type a value of 32 bits. A message without a body has the body of the one before
-- it.
pub everything_arrives :
    (s t : Stream)
    → IsEstablished s
    → Reach s t
    → t.sender.is_open ≡ true
    → t.receiver.is_open ≡ true
    → t.sender.writes ≡ []
    → t.wire ≡ []
    → All IsFramed t.sent
    → (t.sender.messages_out ≡ []) × (contents t.receiver.messages_in ≡ arrived [] t.sent)
everything_arrives s t e r o p n w f =
    let v = Reach-IsDelivering (IsEstablished-IsDelivering s e) r f in
    let (empty, no_rest) = at_rest t.sender v.rest v.writing o n in
    let stream : t.wire ++ v.rest ≡ [] = rw (w, no_rest) in
    let came : v.pending ≡ [] =
      none_pending t.receiver v.done v.pending
        (subst (λ l. Reading t.receiver v.done v.pending l) stream v.reading_on) p in
    let whole : v.done ≡ t.sent =
      sym (append-nil v.done) ∙ ap (λ ms. v.done ++ ms) (sym came) ∙ sym v.split in
    (empty, v.queued ∙ ap (arrived []) whole)

-- A message that has a body.
abbrev pub HasBody : Message → Type 0
HasBody msg = ltb 0 (length msg.body) ≡ true

arrived_whole : (old : List ℕ) (ms : List Message) → All HasBody ms → arrived old ms ≡ ms
unfolding arrived
arrived_whole old [] h = refl
arrived_whole old (m ∷ ms) h =
    ap₂ (λ b r. record m { body = b } ∷ r) (delivered_body_some old m h.0)
      (arrived_whole (delivered_body old m) ms h.1)

-- If all messages that were sent are framed and have a body, the incoming queue holds a first part of them,
-- unchanged.
pub bodies_arrive :
    (s t : Stream)
    → IsEstablished s
    → Reach s t
    → All HasBody t.sent
    → All IsFramed t.sent
    → (pending : List Message) × (t.sent ≡ contents t.receiver.messages_in ++ pending)
bodies_arrive s t e r h f =
    let v = Reach-IsDelivering (IsEstablished-IsDelivering s e) r f in
    let first = All-append_left HasBody v.done v.pending (subst (All HasBody) v.split h) in
    let same = v.queued ∙ arrived_whole [] v.done first in
    (v.pending, v.split ∙ ap (λ ms. ms ++ v.pending) (sym same))

-- A header of size 0 completes a message at once, and the message is queued with the body that the
-- temporary message still has from the message before.
pub stale_body :
    (c : Connection) (msg : Message)
    → IsFramed msg
    → msg.body ≡ []
    → contents (on_header_read true (header_bytes msg) c).messages_in
      ≡ contents c.messages_in ++ record msg { body = c.temporary_in.body } ∷ []
unfolding add_to_incoming read_header
stale_body c msg f e =
    let empty : ltb 0 msg.size ≡ false = rw (f.sized, e) in
    ap (λ (d : Connection). contents d.messages_in) (header_read_none c msg f empty)
    ∙ contents-snoc c.messages_in _
