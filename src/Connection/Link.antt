-- ===== src/Connection/Link.antt =====
-- A connection with both of its directions (net_connection.h): two ends, each of which sends and
-- receives on the same socket. An operation that fails closes the socket for both directions.
pub mod Halves
pub mod Past
pub mod Both
pub mod Early
pub mod Turns
use servy.Prelude.{ℕ, ◌≡◌, ◌⊎◌, true, false, List, [], ◌∷◌, ◌++◌, some, length}
use servy.Message.{Message}
use servy.Connection.{Connection, Buffer, Write, Read, close, send, on_written, on_read}
use servy.Connection.Stream.{Stream}

pub record Link : Type 0 where
  pub a : Connection
  pub b : Connection
  -- the bytes that the network holds, from each end to the other
  pub from_a : List ℕ
  pub from_b : List ℕ
  -- the messages whose `Send` has run
  pub sent_a : List Message
  pub sent_b : List Message

-- The link seen from the other end.
abbrev pub swap : Link → Link
swap l = record {
  a = l.b;
  b = l.a;
  from_a = l.from_b;
  from_b = l.from_a;
  sent_a = l.sent_b;
  sent_b = l.sent_a;
}

-- The direction from `a` to `b`.
abbrev pub forward : Link → Stream
forward l = record { sender = l.a; receiver = l.b; wire = l.from_a; sent = l.sent_a }

-- What can happen next at the end `a`.
pub data EndStep (l m : Link) : Type 0 where
  sends :
      (msg : Message) (c : Connection)
      → send l.a msg ≡ some c
      → m ≡ record l { a = c; sent_a = l.sent_a ++ msg ∷ [] }
      → EndStep l m
  transfers :
      (what : Buffer) (byte : ℕ) (left : List ℕ) (pre post : List Write)
      → l.a.is_open ≡ true
      → l.a.writes ≡ pre ++ record { what = what; left = byte ∷ left } ∷ post
      → m ≡ record l {
        a = record l.a { writes = pre ++ record { what = what; left = left } ∷ post };
        from_a = l.from_a ++ byte ∷ [];
      }
      → EndStep l m
  completes :
      (what : Buffer) (pre post : List Write) (c : Connection)
      → l.a.writes ≡ pre ++ record { what = what; left = [] } ∷ post
      → on_written what true (record l.a { writes = pre ++ post }) ≡ some c
      → m ≡ record l { a = c }
      → EndStep l m
  write_fails :
      (w : Write) (pre post : List Write) (c : Connection)
      → l.a.writes ≡ pre ++ w ∷ post
      → on_written w.what false (record l.a { writes = pre ++ post }) ≡ some c
      → m ≡ record l { a = c }
      → EndStep l m
  reads :
      (what : Buffer) (bytes rest : List ℕ) (pre post : List Read)
      → l.a.is_open ≡ true
      → l.a.reads ≡ pre ++ record { what = what; count = length bytes } ∷ post
      → l.from_b ≡ bytes ++ rest
      → m ≡ record l {
        a = on_read what true bytes (record l.a { reads = pre ++ post });
        from_b = rest;
      }
      → EndStep l m
  read_fails :
      (r : Read) (pre post : List Read) (bytes : List ℕ)
      → l.a.reads ≡ pre ++ r ∷ post
      → m ≡ record l { a = on_read r.what false bytes (record l.a { reads = pre ++ post }) }
      → EndStep l m
  closes : m ≡ record l { a = close l.a } → EndStep l m

-- What can happen next, at either end.
abbrev pub LinkStep : Link → Link → Type 0
LinkStep l m = EndStep l m ⊎ EndStep (swap l) (swap m)

pub data LinkReach (l : Link) : Link → Type 0 where
  here : LinkReach l l
  next : {m n : Link} → LinkReach l m → LinkStep m n → LinkReach l n
