-- ===== src/Network/Replies.antt =====
-- In what order the clients read what the server posts to them (net_server.h, net_connection.h).
use servy.Prelude.{
  Bool, true, false, All, ℕ, ◌≡◌, refl, ap, sym, ◌∙◌, inl, inr, List, [], ◌∷◌, ◌++◌, ◌==◌,
  Bool-cases, arith,
}
use mathlib.Core.Path.{subst}
use mathlib.Core.List.{append_assoc, append-nil}
use servy.Run.{Run}
use servy.Message.{Message}
use servy.Archive.{Archive}
use servy.Connection.Arrival.{arrived, contents}
use servy.Connection.Wire.{IsFramed}
use servy.Connection.Delivery.{arrive_in_order}
use servy.Connection.Link.{Link, forward}
use servy.Server.{Server}
use servy.Server.Posts.{Grows, close_client-Grows, deliver-Grows, SystemStep-Grows}
use servy.Network.{
  Network, with_socket, put, posts_to, NetworkStep, link_works, update_handles, others_work,
  NetworkReach, here, next,
}
use servy.Network.InTurn.{IsFreshNetwork, IsFreshNetwork-AllInTurn, NetworkReach-AllInTurn}

posts_to-append :
    (k : ℕ) (xs ys : List (ℕ × Message)) → posts_to k (xs ++ ys) ≡ posts_to k xs ++ posts_to k ys
unfolding posts_to
posts_to-append k [] ys = refl
posts_to-append k ((c, m) ∷ xs) ys = elim (Bool-cases (c == k)) [
  | inl e ↦ rw e (ap (◌∷◌ m) (posts_to-append k xs ys))
  | inr e ↦ rw e (posts_to-append k xs ys)
]

-- What a link's server end has sent is a first part of what has been posted to it.
abbrev IsPosted : ℕ → List Message → Server → Type 0
IsPosted k sent s = (unsent : List Message) × (posts_to k s.outbox ≡ sent ++ unsent)

Grows-IsPosted :
    (k : ℕ) (sent : List Message) (s t : Server) → Grows s t → IsPosted k sent s → IsPosted k sent t
Grows-IsPosted k sent s t (posts, g) (unsent, e) = (
  unsent ++ posts_to k posts,
  ap (posts_to k) g
      ∙ posts_to-append k s.outbox posts
      ∙ ap (λ l. l ++ posts_to k posts) e
      ∙ append_assoc sent unsent (posts_to k posts),
)

socket-Grows : (up : Bool) (k : ℕ) (s : Server) → Grows s (with_socket up s k)
socket-Grows true k s = ([], sym (append-nil s.outbox))
socket-Grows false k s = close_client-Grows s k

abbrev AllPosted : Network → Type 0
AllPosted n = (k : ℕ) → IsPosted k (n.links k).sent_a n.system.server

put-AllPosted :
    (links : ℕ → Link) (j : ℕ) (l : Link) (s : Server)
    → ((k : ℕ) → IsPosted k (links k).sent_a s)
    → IsPosted j l.sent_a s
    → (k : ℕ) → IsPosted k (put links j l k).sent_a s
put-AllPosted links j l s v w k = elim (Bool-cases (k == j)) [
  | inl same ↦
      let q : j ≡ k = ground (arith, same) in rw same (subst (λ i. IsPosted i l.sent_a s) q w)
  | inr differ ↦ rw differ (v k)
]

module _ (a : Archive) (Accepts : Run → Type 0) where
  NetworkStep-AllPosted : {n p : Network} → NetworkStep a Accepts n p → AllPosted n → AllPosted p
  NetworkStep-AllPosted {n} {p} (link_works j l new unsent st e _ posted q) v = rw q (λ k.
      Grows-IsPosted k (put n.links j l k).sent_a n.system.server
        (with_socket l.a.is_open n.system.server j) (socket-Grows l.a.is_open j n.system.server)
        (put-AllPosted n.links j l n.system.server v (unsent, posted) k))
  NetworkStep-AllPosted {n} {p} (update_handles o rest srv h d q) v = rw q (λ k.
      Grows-IsPosted k (n.links k).sent_a n.system.server srv
        (deliver-Grows a n.system.server srv o d) (v k))
  NetworkStep-AllPosted {n} {p} (others_work s st h q) v = rw q (λ k.
      Grows-IsPosted k (n.links k).sent_a n.system.server s.server (SystemStep-Grows a Accepts st)
        (v k))

  NetworkReach-AllPosted : {n p : Network} → NetworkReach a Accepts n p → AllPosted n → AllPosted p
  NetworkReach-AllPosted here v = v
  NetworkReach-AllPosted (next r st) v = NetworkStep-AllPosted st (NetworkReach-AllPosted r v)

IsFreshNetwork-AllPosted : (n : Network) → IsFreshNetwork n → AllPosted n
IsFreshNetwork-AllPosted n f k = (
  posts_to k n.system.server.outbox,
  ap (λ l. l ++ posts_to k n.system.server.outbox) (sym (f.to_clients k).none_sent),
)

-- From a server whose connections are established, in every state that the network can lead to, for
-- each client to which framed messages have been sent (header.size is the size of the body, and its
-- type a value of 32 bits): the client has queued a first part of what the server has posted to it,
-- replies, broadcasts and greetings, in the order of posting, each once. A message without a body
-- has the body of the one before it.
pub replies_in_turn :
    (a : Archive) (Accepts : Run → Type 0) (n p : Network) (k : ℕ)
    → IsFreshNetwork n
    → NetworkReach a Accepts n p
    → All IsFramed (p.links k).sent_a
    → (done pending : List Message) × (posts_to k p.system.server.outbox ≡ done ++ pending)
      × (contents (p.links k).b.messages_in ≡ arrived [] done)
replies_in_turn a Accepts n p k f r framed =
    let v = NetworkReach-AllInTurn n.links a Accepts r (IsFreshNetwork-AllInTurn n f) k in
    let (unsent, posted) = NetworkReach-AllPosted a Accepts r (IsFreshNetwork-AllPosted n f) k in
    let (done, pending, split, queued) =
      arrive_in_order (forward (n.links k)) (forward (p.links k)) (f.to_clients k) v.joined.forth
        framed in
    (
      done,
      pending ++ unsent,
      posted ∙ ap (λ l. l ++ unsent) split ∙ append_assoc done pending unsent,
      queued,
    )
