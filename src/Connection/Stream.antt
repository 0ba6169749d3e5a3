-- ===== src/Connection/Stream.antt =====
-- One direction of a connection (net_connection.h): the end that sends, the bytes that the network
-- holds, and the end that receives. asio moves the bytes of a pending write to the wire one by one
-- and runs the handlers in any order; an operation may fail at any time, and either socket may be
-- closed at any time. `sent` lists the messages whose `Send` has run.
use servy.Prelude.{ℕ, ◌≡◌, true, false, List, [], ◌∷◌, ◌++◌, some, length}
use servy.Message.{Message}
use servy.Connection.{Connection, Buffer, Write, Read, close, send, on_written, on_read}

pub record Stream : Type 0 where
  pub sender : Connection
  pub receiver : Connection
  pub wire : List ℕ
  pub sent : List Message

-- Two states of a connection that agree on what it writes.
pub record SameWriting (c d : Connection) : Type 0 where
  pub is_open : d.is_open ≡ c.is_open
  pub messages_out : d.messages_out ≡ c.messages_out
  pub writes : d.writes ≡ c.writes

-- Two states of a connection that agree on what it reads.
pub record SameReading (c d : Connection) : Type 0 where
  pub is_open : d.is_open ≡ c.is_open
  pub temporary_in : d.temporary_in ≡ c.temporary_in
  pub reads : d.reads ≡ c.reads
  pub messages_in : d.messages_in ≡ c.messages_in

-- What can happen next. The last four steps are those of the other direction of the connection:
-- whatever the sender reads and the receiver writes.
pub data Step (s t : Stream) : Type 0 where
  sends :
      (msg : Message) (c : Connection)
      → send s.sender msg ≡ some c
      → t ≡ record s { sender = c; sent = s.sent ++ msg ∷ [] }
      → Step s t
  transfers :
      (what : Buffer) (b : ℕ) (left : List ℕ) (pre post : List Write)
      → s.sender.is_open ≡ true
      → s.sender.writes ≡ pre ++ record { what = what; left = b ∷ left } ∷ post
      → t ≡ record s {
        sender = record s.sender { writes = pre ++ record { what = what; left = left } ∷ post };
        wire = s.wire ++ b ∷ [];
      }
      → Step s t
  completes :
      (what : Buffer) (pre post : List Write) (c : Connection)
      → s.sender.writes ≡ pre ++ record { what = what; left = [] } ∷ post
      → on_written what true (record s.sender { writes = pre ++ post }) ≡ some c
      → t ≡ record s { sender = c }
      → Step s t
  write_fails :
      (w : Write) (pre post : List Write) (c : Connection)
      → s.sender.writes ≡ pre ++ w ∷ post
      → on_written w.what false (record s.sender { writes = pre ++ post }) ≡ some c
      → t ≡ record s { sender = c }
      → Step s t
  reads :
      (what : Buffer) (bytes rest : List ℕ) (pre post : List Read)
      → s.receiver.is_open ≡ true
      → s.receiver.reads ≡ pre ++ record { what = what; count = length bytes } ∷ post
      → s.wire ≡ bytes ++ rest
      → t ≡ record s {
        receiver = on_read what true bytes (record s.receiver { reads = pre ++ post });
        wire = rest;
      }
      → Step s t
  read_fails :
      (r : Read) (pre post : List Read) (bytes : List ℕ)
      → s.receiver.reads ≡ pre ++ r ∷ post
      → t ≡ record s {
        receiver = on_read r.what false bytes (record s.receiver { reads = pre ++ post });
      }
      → Step s t
  sender_reads : (c : Connection) → SameWriting s.sender c → t ≡ record s { sender = c } → Step s t
  receiver_writes :
      (c : Connection) → SameReading s.receiver c → t ≡ record s { receiver = c } → Step s t
  sender_closes : t ≡ record s { sender = close s.sender } → Step s t
  receiver_closes : t ≡ record s { receiver = close s.receiver } → Step s t

pub data Reach (s : Stream) : Stream → Type 0 where
  here : Reach s s
  next : {t u : Stream} → Reach s t → Step t u → Reach s u
