-- ===== src/Connection/Delivery.antt =====
-- From `Send` to the incoming queue (net_connection.h): the sender and the receiver together.
use mathlib.Core.Path.{subst}
use mathlib.Core.List.{append_assoc, append-nil}
use servy.Prelude.{
  ℕ, ◌≡◌, refl, ap, sym, ◌∙◌, true, List, [], ◌∷◌, ◌++◌, some, length, All, All-append,
  All-append_left,
}
use servy.Message.{Message}
use servy.Connection.{Connection, Buffer, header, Write, Read, send, on_read, close}
use servy.Connection.Wire.{encode, encode_all, encode_all-snoc, IsFramed}
use servy.Connection.Stream.{
  Stream, Step, sends, transfers, completes, write_fails, reads, read_fails, sender_reads,
  receiver_writes, sender_closes, receiver_closes, Reach, here, next,
}
use servy.Connection.Writing.{Writing, idle, same-Writing, close-Writing}
use servy.Connection.Sending.{send-Writing, transfer-Writing, completes-Writing, fails-Writing}
use servy.Connection.Arrival.{arrived, contents, kept_body}
use servy.Connection.Reading.{
  Reading, in_header, in_body, stopped, reading, same-Reading, close-Reading, fails-Reading,
  on_read_failed,
}
use servy.Connection.Receiving.{reads-Progress}

-- A direction whose handshake is over, before its first message.
pub record IsEstablished (s : Stream) : Type 0 where
  pub queue_empty : s.sender.messages_out ≡ []
  pub no_write : s.sender.writes ≡ []
  pub header_awaited : s.receiver.reads ≡ reading header 8
  pub no_body : s.receiver.temporary_in.body ≡ []
  pub none_queued : s.receiver.messages_in ≡ []
  pub wire_empty : s.wire ≡ []
  pub none_sent : s.sent ≡ []

-- The messages sent are those queued at the other end, those whose bytes are under way, and those
-- that wait behind them.
pub record IsDelivering (s : Stream) : Type 0 where
  pub done : List Message
  pub pending : List Message
  pub rest : List ℕ
  pub split : s.sent ≡ done ++ pending
  pub framed : All IsFramed pending
  pub queued : contents s.receiver.messages_in ≡ arrived [] done
  pub writing : Writing s.sender rest
  pub reading_on : Reading s.receiver done pending (s.wire ++ rest)

pub IsEstablished-IsDelivering : (s : Stream) → IsEstablished s → IsDelivering s
unfolding contents arrived kept_body encode_all
IsEstablished-IsDelivering s e = record {
  done = [];
  pending = [];
  rest = [];
  split = e.none_sent;
  framed = tt;
  queued = ap contents e.none_queued;
  writing = idle e.queue_empty e.no_write refl;
  reading_on = in_header e.header_awaited e.no_body (append-nil s.wire ∙ e.wire_empty);
}

All-last : (P : Message → Type 0) (ms : List Message) (m : Message) → All P (ms ++ m ∷ []) → P m
All-last P [] m h = h.0
All-last P (x ∷ ms) m h = All-last P ms m h.1

-- One more message to come.
sends-Reading :
    (c : Connection) (done pending : List Message) (wire rest : List ℕ) (m : Message)
    → Reading c done pending (wire ++ rest)
    → Reading c done (pending ++ m ∷ []) (wire ++ (rest ++ encode m))
sends-Reading c done pending wire rest m (in_header r t e) = in_header r t (
    sym (append_assoc wire rest (encode m))
    ∙ ap (λ b. b ++ encode m) e
    ∙ sym (encode_all-snoc pending m))
sends-Reading c done pending wire rest m (in_body n ns r i z p g e) =
    in_body n (ns ++ m ∷ []) r i z (ap (λ q. q ++ m ∷ []) p) g (
      sym (append_assoc wire rest (encode m))
      ∙ ap (λ b. b ++ encode m) e
      ∙ append_assoc n.body (encode_all ns) (encode m)
      ∙ ap (λ b. n.body ++ b) (sym (encode_all-snoc ns m)))
sends-Reading c done pending wire rest m (stopped o r) = stopped o r

sends-IsDelivering :
    (s : Stream) (m : Message) (c : Connection)
    → IsDelivering s
    → IsFramed m
    → send s.sender m ≡ some c
    → IsDelivering (record s { sender = c; sent = s.sent ++ m ∷ [] })
sends-IsDelivering s m c v f h =
    let (c', e, w) = send-Writing s.sender v.rest m v.writing in
    record {
      done = v.done;
      pending = v.pending ++ m ∷ [];
      rest = v.rest ++ encode m;
      split = ap (λ ms. ms ++ m ∷ []) v.split ∙ append_assoc v.done v.pending (m ∷ []);
      framed = All-append IsFramed v.pending (m ∷ []) v.framed (f, tt);
      queued = v.queued;
      writing = subst (λ d. Writing d (v.rest ++ encode m)) (cc e) w;
      reading_on = sends-Reading s.receiver v.done v.pending s.wire v.rest m v.reading_on;
    }

reads-IsDelivering :
    (s : Stream) (what : Buffer) (bytes rest : List ℕ) (pre post : List Read)
    → IsDelivering s
    → s.receiver.is_open ≡ true
    → s.receiver.reads ≡ pre ++ record { what = what; count = length bytes } ∷ post
    → s.wire ≡ bytes ++ rest
    → IsDelivering (record s {
      receiver = on_read what true bytes (record s.receiver { reads = pre ++ post });
      wire = rest;
    })
reads-IsDelivering s what bytes rest pre post v o h e =
    let stream = ap (λ w. w ++ v.rest) e ∙ append_assoc bytes rest v.rest in
    let p =
      reads-Progress s.receiver v.done v.pending what bytes (rest ++ v.rest) pre post v.framed
        v.queued (subst (λ t. Reading s.receiver v.done v.pending t) stream v.reading_on) o h in
    record {
      done = p.done';
      pending = p.pending';
      rest = v.rest;
      split = v.split ∙ p.moved;
      framed = p.still_framed v.framed;
      queued = p.queued;
      writing = v.writing;
      reading_on = p.reading_on;
    }

-- What a step of the writing end alone leaves.
with_sender :
    (s : Stream) (c : Connection) (v : IsDelivering s)
    → Writing c v.rest
    → IsDelivering (record s { sender = c })
with_sender s c v w = record {
  done = v.done;
  pending = v.pending;
  rest = v.rest;
  split = v.split;
  framed = v.framed;
  queued = v.queued;
  writing = w;
  reading_on = v.reading_on;
}

-- What a step of the reading end leaves that takes nothing from the wire.
with_receiver :
    (s : Stream) (c : Connection) (v : IsDelivering s)
    → c.messages_in ≡ s.receiver.messages_in
    → Reading c v.done v.pending (s.wire ++ v.rest)
    → IsDelivering (record s { receiver = c })
with_receiver s c v e r = record {
  done = v.done;
  pending = v.pending;
  rest = v.rest;
  split = v.split;
  framed = v.framed;
  queued = ap contents e ∙ v.queued;
  writing = v.writing;
  reading_on = r;
}

transfers-IsDelivering :
    (s : Stream) (what : Buffer) (b : ℕ) (left : List ℕ) (pre post : List Write)
    → IsDelivering s
    → s.sender.writes ≡ pre ++ record { what = what; left = b ∷ left } ∷ post
    → IsDelivering (record s {
      sender = record s.sender { writes = pre ++ record { what = what; left = left } ∷ post };
      wire = s.wire ++ b ∷ [];
    })
transfers-IsDelivering s what b left pre post v h =
    let (rest', r, w) = transfer-Writing s.sender v.rest what b left pre post v.writing h in
    record {
      done = v.done;
      pending = v.pending;
      rest = rest';
      split = v.split;
      framed = v.framed;
      queued = v.queued;
      writing = w;
      reading_on =
          subst (λ t. Reading s.receiver v.done v.pending t)
            (ap (λ r. s.wire ++ r) r ∙ sym (append_assoc s.wire (b ∷ []) rest')) v.reading_on;
    }

-- If all that has been sent is framed, then whatever happens next, the messages stay accounted for.
pub Step-IsDelivering :
    {s t : Stream} → Step s t → All IsFramed t.sent → IsDelivering s → IsDelivering t
Step-IsDelivering {s} (sends m c h e) f v =
    let framed : All IsFramed (s.sent ++ m ∷ []) =
      subst (λ (x : Stream). All IsFramed x.sent) e f in
    rw e (sends-IsDelivering s m c v (All-last IsFramed s.sent m framed) h)
Step-IsDelivering {s} (transfers what b left pre post o h e) f v =
    rw e (transfers-IsDelivering s what b left pre post v h)
Step-IsDelivering {s} (completes what pre post c h k e) f v =
    let (c', k', w) = completes-Writing s.sender v.rest what pre post v.writing h in
    rw e (with_sender s c v (subst (λ d. Writing d v.rest) (cc k') w))
Step-IsDelivering {s} (write_fails w pre post c h k e) f v =
    rw e (with_sender s c v (fails-Writing s.sender c v.rest w pre post v.writing h k))
Step-IsDelivering {s} (reads what bytes rest pre post o h w e) f v =
    rw e (reads-IsDelivering s what bytes rest pre post v o h w)
Step-IsDelivering {s} (read_fails r pre post bytes h e) f v =
    rw (e, on_read_failed r.what bytes)
      (with_receiver s _ v refl
        (fails-Reading s.receiver v.done v.pending (s.wire ++ v.rest) r pre post v.reading_on h))
Step-IsDelivering {s} (sender_reads c same e) f v =
    rw e (with_sender s c v (same-Writing s.sender c v.rest same v.writing))
Step-IsDelivering {s} (receiver_writes c same e) f v = rw e (
    with_receiver s c v same.messages_in
      (same-Reading s.receiver c v.done v.pending (s.wire ++ v.rest) same v.reading_on))
Step-IsDelivering {s} (sender_closes e) f v =
    rw e (with_sender s (close s.sender) v (close-Writing s.sender v.rest v.writing))
Step-IsDelivering {s} (receiver_closes e) f v = rw e (
    with_receiver s (close s.receiver) v refl
      (close-Reading s.receiver v.done v.pending (s.wire ++ v.rest) v.reading_on))

unsent : (s t : Stream) → t.sent ≡ s.sent → (new : List Message) × (t.sent ≡ s.sent ++ new)
unsent s t e = ([], e ∙ sym (append-nil s.sent))

-- A step takes nothing from the list of what has been sent.
Step-sent : {s t : Stream} → Step s t → (new : List Message) × (t.sent ≡ s.sent ++ new)
Step-sent {s} (sends m c h e) = (m ∷ [], ap (λ (x : Stream). x.sent) e)
Step-sent {s} {t} (transfers what b left pre post o h e) =
    unsent s t (ap (λ (x : Stream). x.sent) e)
Step-sent {s} {t} (completes what pre post c h k e) = unsent s t (ap (λ (x : Stream). x.sent) e)
Step-sent {s} {t} (write_fails w pre post c h k e) = unsent s t (ap (λ (x : Stream). x.sent) e)
Step-sent {s} {t} (reads what bytes rest pre post o h w e) =
    unsent s t (ap (λ (x : Stream). x.sent) e)
Step-sent {s} {t} (read_fails r pre post bytes h e) = unsent s t (ap (λ (x : Stream). x.sent) e)
Step-sent {s} {t} (sender_reads c same e) = unsent s t (ap (λ (x : Stream). x.sent) e)
Step-sent {s} {t} (receiver_writes c same e) = unsent s t (ap (λ (x : Stream). x.sent) e)
Step-sent {s} {t} (sender_closes e) = unsent s t (ap (λ (x : Stream). x.sent) e)
Step-sent {s} {t} (receiver_closes e) = unsent s t (ap (λ (x : Stream). x.sent) e)

pub Reach-IsDelivering :
    {s t : Stream} → IsDelivering s → Reach s t → All IsFramed t.sent → IsDelivering t
Reach-IsDelivering v here f = v
Reach-IsDelivering v (next {t} r st) f =
    let (new, e) = Step-sent st in
    let before = All-append_left IsFramed t.sent new (subst (All IsFramed) e f) in
    Step-IsDelivering st f (Reach-IsDelivering v r before)

-- From an established connection on which framed messages are sent, in every state: the messages in
-- the incoming queue are a first part of those sent, in order, as `arrived` says.
pub arrive_in_order :
    (s t : Stream)
    → IsEstablished s
    → Reach s t
    → All IsFramed t.sent
    → (done pending : List Message) × (t.sent ≡ done ++ pending)
      × (contents t.receiver.messages_in ≡ arrived [] done)
arrive_in_order s t e r f =
    let v = Reach-IsDelivering (IsEstablished-IsDelivering s e) r f in
    (v.done, v.pending, v.split, v.queued)
