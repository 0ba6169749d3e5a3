-- ===== src/Network.antt =====
-- The server with the connections of its clients (net_server.h, net_connection.h, SimpleServer.cpp):
-- each connection runs over a link of its own, and all add what they read to one queue, from which
-- `Update` takes it. The server's end sends what has been posted to it, in the order of posting;
-- what the client sends, and when anything is sent, is free.
pub mod InTurn
pub mod Replies
pub mod Refines
use servy.Prelude.{
  ℕ, ◌≡◌, Bool, true, false, List, [], ◌∷◌, ◌++◌, some, none, All, ◌==◌, if◌then◌else◌,
}
use servy.Run.{Run}
use servy.Message.{Message, OwnedMessage}
use servy.Archive.{Archive}
use servy.Connection.Link.{Link, LinkStep}
use servy.Server.{Server}
use servy.Server.Accept.{close_client}
use servy.Server.Update.{deliver}
use servy.Server.System.{System, SystemStep, IsAllowed}

pub record Network : Type 0 where
  pub system : System
  -- by the address of the server's connection object, which is the end `a`
  pub links : ℕ → Link
  -- the messages that `Update` has handed to `OnMessage`
  pub handled : List OwnedMessage

abbrev pub put : (ℕ → Link) → ℕ → Link → ℕ → Link
put links j l k = if k == j then l else links k

-- What a list has beyond another one.
abbrev pub beyond : List OwnedMessage → List OwnedMessage → List OwnedMessage
beyond [] ys = ys
beyond (x ∷ xs) [] = []
beyond (x ∷ xs) (y ∷ ys) = beyond xs ys

-- The messages that a client's connection has queued.
abbrev pub is_from : ℕ → OwnedMessage → Bool
is_from k o = elim o.remote [ some c ↦ c == k | none ↦ false ]

unfoldable pub from_client : ℕ → List OwnedMessage → List OwnedMessage
from_client k [] = []
from_client k (o ∷ os) = let rest = from_client k os in if is_from k o then o ∷ rest else rest

-- What has been posted to a client, by the address of its connection.
unfoldable pub posts_to : ℕ → List (ℕ × Message) → List Message
posts_to k [] = []
posts_to k ((client, msg) ∷ posts) =
    let rest = posts_to k posts in if client == k then msg ∷ rest else rest

-- The server whose connection `k` has its socket open or not.
abbrev pub with_socket : Bool → Server → ℕ → Server
with_socket true s k = s
with_socket false s k = close_client s k

-- What comes next: at an end of a link, in `Update`, or in another thread of the server.
-- `unsent` is what has been posted to the connection whose `Send` has not run.
pub data NetworkStep (a : Archive) (Accepts : Run → Type 0) (n p : Network) : Type 0 where
  link_works :
      (k : ℕ) (l : Link) (new : List OwnedMessage) (unsent : List Message)
      → LinkStep (n.links k) l
      → new ≡ beyond (n.links k).a.messages_in l.a.messages_in
      → All (IsAllowed a Accepts) new
      → posts_to k n.system.server.outbox ≡ l.sent_a ++ unsent
      → p ≡ record n {
        links = put n.links k l;
        system = record {
          server = with_socket l.a.is_open n.system.server k;
          messages_in = n.system.messages_in ++ new;
        };
      }
      → NetworkStep a Accepts n p
  update_handles :
      (o : OwnedMessage) (rest : List OwnedMessage) (server : Server)
      → n.system.messages_in ≡ o ∷ rest
      → deliver a n.system.server o ≡ some server
      → p ≡ record n {
        system = record { server = server; messages_in = rest };
        handled = n.handled ++ o ∷ [];
      }
      → NetworkStep a Accepts n p
  others_work :
      (s : System)
      → SystemStep a Accepts n.system s
      → s.messages_in ≡ n.system.messages_in
      → p ≡ record n { system = s }
      → NetworkStep a Accepts n p

pub data NetworkReach (a : Archive) (Accepts : Run → Type 0) (n : Network) : Network → Type 0 where
  here : NetworkReach a Accepts n n
  next :
      {m p : Network}
      → NetworkReach a Accepts n m
      → NetworkStep a Accepts m p
      → NetworkReach a Accepts n p
