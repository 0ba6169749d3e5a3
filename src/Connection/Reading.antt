-- ===== src/Connection/Reading.antt =====
-- Where the reading end of a connection stands (net_connection.h).
use servy.Prelude.{ℕ, ◌≡◌, refl, ap, ◌∙◌, true, false, List, [], ◌∷◌, ◌++◌, length, ltb}
use servy.Message.{Message}
use servy.Connection.{
  Connection, Buffer, header, body, validation, Read, close, on_header_read, on_body_read,
  on_validation_read, on_read,
}
use servy.Connection.Wire.{encode_all}
use servy.Connection.Stream.{SameReading}
use servy.Prelude.{only_member, no_member}
use servy.Connection.Arrival.{kept_body}

abbrev pub reading : Buffer → ℕ → List Read
reading what count = record { what = what; count = count } ∷ []

-- Where the reading end stands, when it has queued the messages `done`, the messages `pending` are
-- to come, and `stream` are the bytes to come.
pub data Reading (c : Connection) (done pending : List Message) (stream : List ℕ) : Type 0 where
  in_header :
      c.reads ≡ reading header 8
      → c.temporary_in.body ≡ kept_body [] done
      → stream ≡ encode_all pending
      → Reading c done pending stream
  in_body :
      (m : Message) (ms : List Message)
      → c.reads ≡ reading body (length m.body)
      → c.temporary_in.id ≡ m.id
      → c.temporary_in.size ≡ m.size
      → pending ≡ m ∷ ms
      → ltb 0 (length m.body) ≡ true
      → stream ≡ m.body ++ encode_all ms
      → Reading c done pending stream
  stopped : c.is_open ≡ false → c.reads ≡ [] → Reading c done pending stream

-- What the connection writes changes nothing of this, nor does its closing.
pub same-Reading :
    (c d : Connection) (done pending : List Message) (stream : List ℕ)
    → SameReading c d
    → Reading c done pending stream
    → Reading d done pending stream
same-Reading c d done pending stream s (in_header r t e) =
    in_header (s.reads ∙ r) (ap (λ (msg : Message). msg.body) s.temporary_in ∙ t) e
same-Reading c d done pending stream s (in_body m ms r i z p g e) =
    in_body m ms (s.reads ∙ r) (ap (λ (msg : Message). msg.id) s.temporary_in ∙ i)
      (ap (λ (msg : Message). msg.size) s.temporary_in ∙ z) p g e
same-Reading c d done pending stream s (stopped o r) = stopped (s.is_open ∙ o) (s.reads ∙ r)

pub close-Reading :
    (c : Connection) (done pending : List Message) (stream : List ℕ)
    → Reading c done pending stream
    → Reading (close c) done pending stream
close-Reading c done pending stream (in_header r t e) = in_header r t e
close-Reading c done pending stream (in_body m ms r i z p g e) = in_body m ms r i z p g e
close-Reading c done pending stream (stopped o r) = stopped refl r

-- A read that fails closes the connection, and nothing more is read.
pub on_read_failed :
    (what : Buffer) (bytes : List ℕ) (c : Connection) → on_read what false bytes c ≡ close c
unfolding on_read on_header_read on_body_read on_validation_read
on_read_failed header bytes c = refl
on_read_failed body bytes c = refl
on_read_failed validation bytes c = refl

pub fails-Reading :
    (c : Connection) (done pending : List Message) (stream : List ℕ) (x : Read)
    (pre post : List Read)
    → Reading c done pending stream
    → c.reads ≡ pre ++ x ∷ post
    → Reading (close (record c { reads = pre ++ post })) done pending stream
fails-Reading c done pending stream x pre post (in_header r t e) h =
    let (y, p, p') = only_member _ _ _ pre post r h in stopped refl (rw (p, p'))
fails-Reading c done pending stream x pre post (in_body m ms r i z s g e) h =
    let (y, p, p') = only_member _ _ _ pre post r h in stopped refl (rw (p, p'))
fails-Reading c done pending stream x pre post (stopped d r) h = absurd (no_member _ _ pre post r h)
