-- ===== src/Connection/Receiving.antt =====
-- The handlers of the reading end (net_connection.h): the messages that it queues, made of the bytes
-- of the wire.
use mathlib.Core.List.{append_assoc}
use servy.Prelude.{
  ℕ, ◌≡◌, refl, ap, sym, ◌∙◌, true, false, List, [], ◌∷◌, ◌++◌, length, length-append, arith, ltb,
  if◌then◌else◌, inl, inr, Bool-cases, All,
}
use mathlib.Core.Path.{subst, ap₂}
use servy.Message.{Message, code_of}
use servy.Connection.{
  Connection, Buffer, header, body, Read, header_bytes, resize, read_body, add_to_incoming,
  on_header_read, on_body_read, on_read, read_header,
}
use servy.Connection.Wire.{
  encode, encode_all, IsFramed, of_bytes-to_bytes, split_at-header, length-header_bytes,
  length-resize, read_exactly,
}
use servy.Prelude.{only_member, no_member}
use servy.Connection.Arrival.{
  kept_body, arrived, contents, delivered_body, kept_body-snoc, arrived-snoc, contents-snoc,
  delivered_body_none, delivered_body_some,
}
use servy.Connection.Reading.{Reading, in_header, in_body, stopped, reading}
use servy.Connection.Wire.{body_empty}

-- What a completed read has made of the reading end: a message has been queued or not.
pub record Progress (c : Connection) (done pending : List Message) (stream : List ℕ) : Type 0 where
  pub done' : List Message
  pub pending' : List Message
  pub moved : done ++ pending ≡ done' ++ pending'
  pub still_framed : All IsFramed pending → All IsFramed pending'
  pub queued : contents c.messages_in ≡ arrived [] done'
  pub reading_on : Reading c done' pending' stream

-- The temporary message is queued as it is delivered, and the next header is awaited.
add_to_incoming-Progress :
    (c : Connection) (done : List Message) (m : Message) (ms : List Message) (stream : List ℕ)
    → contents c.messages_in ≡ arrived [] done
    → c.temporary_in ≡ record m { body = delivered_body (kept_body [] done) m }
    → c.reads ≡ []
    → stream ≡ encode_all ms
    → Progress (add_to_incoming c) done (m ∷ ms) stream
unfolding add_to_incoming read_header
add_to_incoming-Progress c done m ms stream q t r e = record {
  done' = done ++ m ∷ [];
  pending' = ms;
  moved = sym (append_assoc done (m ∷ []) ms);
  still_framed = λ f. f.1;
  queued =
      contents-snoc c.messages_in _
      ∙ ap (λ os. os ++ c.temporary_in ∷ []) q
      ∙ ap (λ msg. arrived [] done ++ msg ∷ []) t
      ∙ sym (arrived-snoc [] done m);
  reading_on =
      in_header (ap (λ rs. rs ++ reading header 8) r)
        (ap (λ (msg : Message). msg.body) t ∙ sym (kept_body-snoc [] done m)) e;
}

-- The state in which a header leaves the reading end.
abbrev headed : Connection → Message → List ℕ → Connection
headed c m bytes = record c { temporary_in = record { id = m.id; size = m.size; body = bytes } }

header_read_lem :
    (c : Connection) (m : Message)
    → IsFramed m
    → on_header_read true (header_bytes m) c ≡ (
        if ltb 0 m.size
        then read_body (headed c m (resize m.size c.temporary_in.body))
        else add_to_incoming (headed c m c.temporary_in.body))
unfolding on_header_read header_bytes
header_read_lem c m f =
    let id = of_bytes-to_bytes 4 (code_of m.id) f.narrow in
    let size = of_bytes-to_bytes 4 m.size (rw f.sized f.short) in
    rw (split_at-header (code_of m.id) m.size, id, size, f.known)

header_read_body :
    (c : Connection) (m : Message)
    → IsFramed m
    → ltb 0 m.size ≡ true
    → on_header_read true (header_bytes m) c
      ≡ read_body (headed c m (resize m.size c.temporary_in.body))
header_read_body c m f h = header_read_lem c m f ∙ rw h

pub header_read_none :
    (c : Connection) (m : Message)
    → IsFramed m
    → ltb 0 m.size ≡ false
    → on_header_read true (header_bytes m) c ≡ add_to_incoming (headed c m c.temporary_in.body)
header_read_none c m f h = header_read_lem c m f ∙ rw h

-- A header that has been read: its body is awaited, or the message is complete.
headed-Progress :
    (c : Connection) (done : List Message) (m : Message) (ms : List Message) (rest : List ℕ)
    → IsFramed m
    → contents c.messages_in ≡ arrived [] done
    → c.temporary_in.body ≡ kept_body [] done
    → c.reads ≡ []
    → rest ≡ m.body ++ encode_all ms
    → Progress (on_header_read true (header_bytes m) c) done (m ∷ ms) rest
unfolding read_body
headed-Progress c done m ms rest f q t r e = elim (Bool-cases (ltb 0 (length m.body))) [
  | inl some_bytes ↦
      subst (λ d. Progress d done (m ∷ ms) rest)
        (sym (header_read_body c m f (ap (λ n. ltb 0 n) f.sized ∙ some_bytes)))
        (record {
          done' = done;
          pending' = m ∷ ms;
          moved = refl;
          still_framed = λ f. f;
          queued = q;
          reading_on =
              in_body m ms
                (ap₂ (λ rs n. rs ++ reading body n) r
                  (length-resize m.size c.temporary_in.body ∙ f.sized))
                refl refl refl some_bytes e;
        })
  | inr no_bytes ↦
      let none : m.body ≡ [] = body_empty m.body no_bytes in
      subst (λ d. Progress d done (m ∷ ms) rest)
        (sym (header_read_none c m f (ap (λ n. ltb 0 n) f.sized ∙ no_bytes)))
        (add_to_incoming-Progress (headed c m c.temporary_in.body) done m ms rest q
          (ap (λ b. record m { body = b })
            (t ∙ sym (delivered_body_none (kept_body [] done) m none)))
          r (e ∙ ap (λ b. b ++ encode_all ms) none))
]

-- A body that has been read completes the message.
body-Progress :
    (c : Connection) (done : List Message) (m : Message) (ms : List Message) (rest : List ℕ)
    → contents c.messages_in ≡ arrived [] done
    → c.temporary_in.id ≡ m.id
    → c.temporary_in.size ≡ m.size
    → ltb 0 (length m.body) ≡ true
    → c.reads ≡ []
    → rest ≡ encode_all ms
    → Progress (on_body_read true m.body c) done (m ∷ ms) rest
unfolding on_body_read
body-Progress c done m ms rest q i z h r e =
    add_to_incoming-Progress (record c { temporary_in = record c.temporary_in { body = m.body } })
      done m ms rest q
      (λ k. record {
        id = i k;
        size = z k;
        body = sym (delivered_body_some (kept_body [] done) m h) k;
      })
      r e

-- A read that is done brings the next part of the stream.
pub reads-Progress :
    (c : Connection) (done pending : List Message) (what : Buffer) (bytes rest : List ℕ)
    (pre post : List Read)
    → All IsFramed pending
    → contents c.messages_in ≡ arrived [] done
    → Reading c done pending (bytes ++ rest)
    → c.is_open ≡ true
    → c.reads ≡ pre ++ record { what = what; count = length bytes } ∷ post
    → Progress (on_read what true bytes (record c { reads = pre ++ post })) done pending rest
unfolding on_read encode_all encode
reads-Progress c done [] what bytes rest pre post f q (in_header r t e) o h =
    let (x, p, p') = only_member _ _ _ pre post r h in
    absurd (
      omega (
        arith,
        length-append bytes rest,
        ap (λ (l : List ℕ). length l) e,
        ap (λ (y : Read). y.count) x,
      ))
reads-Progress c done (m ∷ ms) what bytes rest pre post f q (in_header r t e) o h =
    let (x, p, p') = only_member _ _ _ pre post r h in
    let (b, e') =
      read_exactly bytes rest (header_bytes m) (m.body ++ encode_all ms)
        (sym (ap (λ (y : Read). y.count) x) ∙ sym (length-header_bytes m))
        (e ∙ append_assoc (header_bytes m) m.body (encode_all ms)) in
    rw (b, ← ap (λ (y : Read). y.what) x)
      (headed-Progress (record c { reads = pre ++ post }) done m ms rest f.0 q t (rw (p, p')) e')
reads-Progress c done pending what bytes rest pre post f q (in_body m ms r i z s g e) o h =
    let (x, p, p') = only_member _ _ _ pre post r h in
    let (b, e') =
      read_exactly bytes rest m.body (encode_all ms) (sym (ap (λ (y : Read). y.count) x)) e in
    rw (s, b, ← ap (λ (y : Read). y.what) x)
      (body-Progress (record c { reads = pre ++ post }) done m ms rest q i z g (rw (p, p')) e')
reads-Progress c done pending what bytes rest pre post f q (stopped d r) o h =
    absurd (no_member _ _ pre post r h)
