-- ===== src/Connection/Flush.antt =====
-- How a sender comes to write all that is queued while its socket stays open (net_connection.h).
use servy.Prelude.{
  ℕ, ◌≡◌, refl, ◌∙◌, true, inl, inr, List, [], ◌∷◌, ◌++◌, some, length, ltb, Bool-cases,
}
use servy.Message.{Message}
use servy.TsQueue.{front, pop_front}
use servy.Connection.{
  Connection, Buffer, header, body, Write, on_written, on_body_written, write_header, next_message,
  header_bytes,
}
use servy.Connection.Stream.{Stream, Step, transfers, completes, Reach, here, next}
use servy.Connection.Sending.{header_written_lem, front_lem, write_body_lem}
use servy.Connection.Writing.{Writing, idle, in_header, in_body, stopped, writing}

pub Reach-trans : {s t u : Stream} → Reach s t → Reach t u → Reach s u
Reach-trans r here = r
Reach-trans r (next q st) = next (Reach-trans r q) st

-- A state that steps of the sender alone lead to, its socket still open.
pub record Sent (s : Stream) (messages_out : List Message) (writes : List Write) : Type 0 where
  pub last : Stream
  pub reach : Reach s last
  pub queue : last.sender.messages_out ≡ messages_out
  pub pending : last.sender.writes ≡ writes
  pub is_open : last.sender.is_open ≡ true
  pub same_receiver : last.receiver ≡ s.receiver
  pub same_sent : last.sent ≡ s.sent

Sent-trans :
    {s : Stream} {q r : List Message} {ws xs : List Write} (a : Sent s q ws)
    → Sent a.last r xs
    → Sent s r xs
Sent-trans a b = record {
  last = b.last;
  reach = Reach-trans a.reach b.reach;
  queue = b.queue;
  pending = b.pending;
  is_open = b.is_open;
  same_receiver = b.same_receiver ∙ a.same_receiver;
  same_sent = b.same_sent ∙ a.same_sent;
}

-- All bytes of the pending write go to the wire.
pour :
    (what : Buffer) (left : List ℕ) (s : Stream) (q : List Message)
    → s.sender.is_open ≡ true
    → s.sender.messages_out ≡ q
    → s.sender.writes ≡ writing what left
    → Sent s q (writing what [])
pour what [] s q o e w = record {
  last = s;
  reach = here;
  queue = e;
  pending = w;
  is_open = o;
  same_receiver = refl;
  same_sent = refl;
}
pour what (b ∷ left) s q o e w =
    let t : Stream = record s {
      sender = record s.sender { writes = writing what left };
      wire = s.wire ++ b ∷ [];
    } in
    let st : Step s t = transfers what b left [] [] o w refl in
    let p = pour what left t q o e refl in
    record {
      last = p.last;
      reach = Reach-trans (next here st) p.reach;
      queue = p.queue;
      pending = p.pending;
      is_open = p.is_open;
      same_receiver = p.same_receiver;
      same_sent = p.same_sent;
    }

-- The handler of a write that is done, where it leaves a given queue and pending write.
finish :
    (what : Buffer) (s : Stream) (c : Connection)
    → s.sender.writes ≡ writing what []
    → on_written what true (record s.sender { writes = [] }) ≡ some c
    → c.is_open ≡ true
    → Sent s c.messages_out c.writes
finish what s c w h o = record {
  last = record s { sender = c };
  reach = next here (completes what [] [] c w h refl);
  queue = refl;
  pending = refl;
  is_open = o;
  same_receiver = refl;
  same_sent = refl;
}

next_last :
    (c : Connection) (m : Message)
    → c.messages_out ≡ m ∷ []
    → next_message c ≡ some (record c { messages_out = [] })
unfolding next_message pop_front
next_last c m e = rw e

next_header :
    (c : Connection) (m n : Message) (q : List Message)
    → c.messages_out ≡ m ∷ n ∷ q
    → next_message c
      ≡ some (record c {
        messages_out = n ∷ q;
        writes = c.writes ++ record { what = header; left = header_bytes n } ∷ [];
      })
unfolding next_message pop_front write_header front
next_header c m n q e = rw e

-- What remains to be done once the front message `m` is written, `q` being behind it.
abbrev Rest : List Message → Message → Type 0
Rest q m =
    (s : Stream) (what : Buffer)
    → s.sender.is_open ≡ true
    → s.sender.messages_out ≡ m ∷ q
    → s.sender.writes ≡ writing what []
    → on_written what true (record s.sender { writes = [] })
      ≡ next_message (record s.sender { writes = [] })
    → Sent s [] []

-- A body is written, then the rest.
after_body :
    (q : List Message) (m : Message) (left : List ℕ)
    → Rest q m
    → (s : Stream) → s.sender.is_open ≡ true
    → s.sender.messages_out ≡ m ∷ q
    → s.sender.writes ≡ writing body left
    → Sent s [] []
unfolding on_written on_body_written
after_body q m left rest s o e w =
    let p = pour body left s (m ∷ q) o e w in
    Sent-trans p (rest p.last body p.is_open p.queue p.pending refl)

-- A header is written, then the body, if there is one, and the rest.
after_header :
    (q : List Message) (m : Message) (left : List ℕ)
    → Rest q m
    → (s : Stream) → s.sender.is_open ≡ true
    → s.sender.messages_out ≡ m ∷ q
    → s.sender.writes ≡ writing header left
    → Sent s [] []
unfolding on_written
after_header q m left rest s o e w =
    let p = pour header left s (m ∷ q) o e w in
    let c : Connection = record p.last.sender { writes = [] } in
    let handler = header_written_lem c m (front_lem _ q m p.queue) in
    elim (Bool-cases (ltb 0 (length m.body))) [
      | inl some_bytes ↦
          let d : Connection = record c { writes = writing body m.body } in
          let f =
            finish header p.last d p.pending
              (handler ∙ rw some_bytes (write_body_lem c m q p.queue)) p.is_open in
          Sent-trans p (
            Sent-trans f
              (after_body q m m.body rest f.last f.is_open (f.queue ∙ p.queue) f.pending))
      | inr no_bytes ↦
          Sent-trans p (rest p.last header p.is_open p.queue p.pending (handler ∙ rw no_bytes))
    ]

queue-Rest : (q : List Message) (m : Message) → Rest q m
queue-Rest [] m s what o e w h =
    finish what s (record s.sender { messages_out = []; writes = [] }) w (h ∙ next_last _ m e) o
queue-Rest (n ∷ q) m s what o e w h =
    let c : Connection = record s.sender {
      messages_out = n ∷ q;
      writes = writing header (header_bytes n);
    } in
    let f = finish what s c w (h ∙ next_header _ m n q e) o in
    Sent-trans f
      (after_header q n (header_bytes n) (queue-Rest q n) f.last f.is_open f.queue f.pending)

-- From any state of a sender whose socket is open, steps of the sender alone write all that is
-- queued.
pub flush :
    (s : Stream) (rest : List ℕ) → Writing s.sender rest → s.sender.is_open ≡ true → Sent s [] []
flush s rest (idle e w r) o = record {
  last = s;
  reach = here;
  queue = e;
  pending = w;
  is_open = o;
  same_receiver = refl;
  same_sent = refl;
}
flush s rest (in_header m q left e w r) o = after_header q m left (queue-Rest q m) s o e w
flush s rest (in_body m q left e w r) o = after_body q m left (queue-Rest q m) s o e w
flush s rest (stopped m q e w d) o = cc
