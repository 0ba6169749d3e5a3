-- ===== src/Network/InTurn.antt =====
-- In what order the server handles what its clients send (net_server.h, net_connection.h).
use servy.Prelude.{
  ℕ, ◌≡◌, refl, ap, sym, ◌∙◌, inl, inr, true, false, List, [], ◌∷◌, ◌++◌, some, none, All, ◌==◌,
  if◌then◌else◌, Bool-cases, arith,
}
use mathlib.Core.Path.{subst, ap₂}
use mathlib.Core.List.{append_assoc, append-nil}
use servy.Run.{Run}
use servy.Message.{Message, OwnedMessage}
use servy.Archive.{Archive}
use servy.Connection.{server}
use servy.Connection.Arrival.{arrived, contents}
use servy.Connection.Delivery.{IsEstablished, arrive_in_order}
use servy.Connection.Link.{Link, swap, forward, LinkStep}
use servy.Connection.Wire.{IsFramed}
use servy.Connection.Link.Both.{IsJoined, LinkStep-IsJoined, IsEstablished-IsJoined}
use servy.Connection.Link.Turns.{Turn, remote_of, LinkStep-Turn}
use servy.Network.{
  Network, put, beyond, is_from, from_client, NetworkStep, link_works, update_handles, others_work,
  NetworkReach, here, next,
}

beyond-append : (xs ys : List OwnedMessage) → beyond xs (xs ++ ys) ≡ ys
beyond-append [] ys = refl
beyond-append (x ∷ xs) ys = beyond-append xs ys

from_client-append :
    (k : ℕ) (xs ys : List OwnedMessage)
    → from_client k (xs ++ ys) ≡ from_client k xs ++ from_client k ys
unfolding from_client
from_client-append k [] ys = refl
from_client-append k (x ∷ xs) ys = elim (Bool-cases (is_from k x)) [
  | inl e ↦ rw e (ap (◌∷◌ x) (from_client-append k xs ys))
  | inr e ↦ rw e (from_client-append k xs ys)
]

self_eq : (k : ℕ) → (k == k) ≡ true
self_eq k = ground arith

is_from_own : (k j : ℕ) (o : OwnedMessage) → o.remote ≡ some j → is_from k o ≡ (j == k)
is_from_own k j o h = ap (λ r. elim r [ some c ↦ c == k | none ↦ false ]) h

-- The messages of one client, in the queue of another one.
from_client-own :
    (k j : ℕ) (xs : List OwnedMessage)
    → All (λ (o : OwnedMessage). o.remote ≡ some j) xs
    → from_client k xs ≡ (if j == k then xs else [])
unfolding from_client
from_client-own k j [] h = elim (Bool-cases (j == k)) [ inl e ↦ rw e refl | inr e ↦ rw e refl ]
from_client-own k j (x ∷ xs) h = elim (Bool-cases (j == k)) [
  | inl e ↦ rw (is_from_own k j x h.0, from_client-own k j xs h.1, e) refl
  | inr e ↦ rw (is_from_own k j x h.0, from_client-own k j xs h.1, e) refl
]

-- The link at the address `k`, come from that of `zs`, and what of it is in the queue or has been handled.
pub record IsInTurn (zs : ℕ → Link) (k : ℕ) (l : Link) (all : List OwnedMessage) : Type 0 where
  named : l.a.self ≡ k
  owned : l.a.owner ≡ server
  pub joined : IsJoined (zs k) l
  pub logged : from_client k all ≡ l.a.messages_in

remote_of-server :
    (zs : ℕ → Link) (k : ℕ) (l : Link) (all : List OwnedMessage)
    → IsInTurn zs k l all
    → remote_of l.a ≡ some k
remote_of-server zs k l all v = rw (v.owned, v.named) refl

-- What a turn of the link adds has the link's name.
added-from_here :
    (zs : ℕ → Link) (k : ℕ) (l m : Link) (all new : List OwnedMessage)
    → IsInTurn zs k l all
    → new ≡ beyond l.a.messages_in m.a.messages_in
    → (t : Turn l.a m.a) → (new ≡ t.added) × All (λ (o : OwnedMessage). o.remote ≡ some k) new
added-from_here zs k l m all new v e t =
    let same = e ∙ ap (beyond l.a.messages_in) t.logged ∙ beyond-append l.a.messages_in t.added in
    (
      same,
      subst (All (λ (o : OwnedMessage). o.remote ≡ some k)) (sym same) (
          subst (λ r. All (λ (o : OwnedMessage). o.remote ≡ r) t.added)
            (remote_of-server zs k l all v) t.from_here),
    )

works-IsInTurn :
    (zs : ℕ → Link) (k : ℕ) (l m : Link) (all new : List OwnedMessage)
    → IsInTurn zs k l all
    → LinkStep l m
    → new ≡ beyond l.a.messages_in m.a.messages_in
    → IsInTurn zs k m (all ++ new)
works-IsInTurn zs k l m all new v st e =
    let t = LinkStep-Turn l m st in
    let (same, own) = added-from_here zs k l m all new v e t in
    let mine : from_client k new ≡ new =
      from_client-own k k new own ∙ ap (λ b. if b then new else []) (self_eq k) in
    record {
      named = t.same_self ∙ v.named;
      owned = t.same_owner ∙ v.owned;
      joined = LinkStep-IsJoined (zs k) l m st v.joined;
      logged = from_client-append k all new ∙ ap₂ ◌++◌ v.logged (mine ∙ same) ∙ sym t.logged;
    }

-- The other links are as they were.
rests-IsInTurn :
    (zs : ℕ → Link) (k j : ℕ) (l : Link) (all new : List OwnedMessage)
    → IsInTurn zs k l all
    → (j == k) ≡ false
    → All (λ (o : OwnedMessage). o.remote ≡ some j) new
    → IsInTurn zs k l (all ++ new)
rests-IsInTurn zs k j l all new v ne own =
    let none_here : from_client k new ≡ [] =
      from_client-own k j new own ∙ ap (λ b. if b then new else []) ne in
    record {
      named = v.named;
      owned = v.owned;
      joined = v.joined;
      logged =
          from_client-append k all new ∙ ap₂ ◌++◌ v.logged none_here ∙ append-nil l.a.messages_in;
    }

-- All links of a network.
abbrev pub AllInTurn : (ℕ → Link) → Network → Type 0
AllInTurn zs n = (k : ℕ) → IsInTurn zs k (n.links k) (n.handled ++ n.system.messages_in)

put-AllInTurn :
    (zs links : ℕ → Link) (j : ℕ) (m : Link) (all new : List OwnedMessage)
    → ((k : ℕ) → IsInTurn zs k (links k) all)
    → LinkStep (links j) m
    → new ≡ beyond (links j).a.messages_in m.a.messages_in
    → (k : ℕ) → IsInTurn zs k (put links j m k) (all ++ new)
put-AllInTurn zs links j m all new v st e k = elim (Bool-cases (k == j)) [
  | inl same ↦
      let q : j ≡ k = ground (arith, same) in
      rw same (
        subst (λ i. IsInTurn zs i m (all ++ new)) q
          (works-IsInTurn zs j (links j) m all new (v j) st e))
  | inr differ ↦
      let q : (j == k) ≡ false = ground (arith, differ) in
      rw differ (
        rests-IsInTurn zs k j (links k) all new (v k) q
          (added-from_here zs j (links j) m all new (v j) e (LinkStep-Turn (links j) m st)).1)
]

module _ (zs : ℕ → Link) (a : Archive) (Accepts : Run → Type 0) where
  NetworkStep-AllInTurn :
      {n p : Network} → NetworkStep a Accepts n p → AllInTurn zs n → AllInTurn zs p
  NetworkStep-AllInTurn {n} {p} (link_works j l new _ st e _ _ q) v = rw q (λ k.
      subst (IsInTurn zs k (put n.links j l k)) (append_assoc n.handled n.system.messages_in new)
        (put-AllInTurn zs n.links j l (n.handled ++ n.system.messages_in) new v st e k))
  NetworkStep-AllInTurn {n} {p} (update_handles o rest _ h _ q) v = rw q (λ k.
      subst (IsInTurn zs k (n.links k))
        (ap (λ q. n.handled ++ q) h ∙ sym (append_assoc n.handled (o ∷ []) rest)) (v k))
  NetworkStep-AllInTurn {n} {p} (others_work s _ h q) v =
      rw q (λ k. subst (λ q. IsInTurn zs k (n.links k) (n.handled ++ q)) (sym h) (v k))

  pub NetworkReach-AllInTurn :
      {n p : Network} → NetworkReach a Accepts n p → AllInTurn zs n → AllInTurn zs p
  NetworkReach-AllInTurn here v = v
  NetworkReach-AllInTurn (next r st) v = NetworkStep-AllInTurn st (NetworkReach-AllInTurn r v)

-- Connections after their handshakes, on which nothing has been sent yet.
pub record IsFreshNetwork (n : Network) : Type 0 where
  pub named : (k : ℕ) → (n.links k).a.self ≡ k
  pub owned : (k : ℕ) → (n.links k).a.owner ≡ server
  pub to_clients : (k : ℕ) → IsEstablished (forward (n.links k))
  pub from_clients : (k : ℕ) → IsEstablished (forward (swap (n.links k)))
  pub queue_empty : n.system.messages_in ≡ []
  pub none_handled : n.handled ≡ []

pub IsFreshNetwork-AllInTurn : (n : Network) → IsFreshNetwork n → AllInTurn n.links n
unfolding from_client
IsFreshNetwork-AllInTurn n f k = record {
  named = f.named k;
  owned = f.owned k;
  joined = IsEstablished-IsJoined (n.links k) (f.to_clients k) (f.from_clients k);
  logged = rw (f.none_handled, f.queue_empty) (sym (f.from_clients k).none_queued);
}

-- From a server whose connections are established, in every state that the network can lead to, for
-- each client that has sent framed messages (header.size is the size of the body, and its type a
-- value of 32 bits): what the server has handled and what waits for it in the queue are together,
-- in this order, a first part of the messages that the client has sent, in the order of its sends,
-- each once, however the messages of several clients, the accepting and the runs interleave, and
-- whatever the server sends. A message without a body has the body of the one before it.
pub each_client_in_turn :
    (a : Archive) (Accepts : Run → Type 0) (n p : Network) (k : ℕ)
    → IsFreshNetwork n
    → NetworkReach a Accepts n p
    → All IsFramed (p.links k).sent_b
    → (done pending : List Message) × ((p.links k).sent_b ≡ done ++ pending)
      × (contents (from_client k (p.handled ++ p.system.messages_in)) ≡ arrived [] done)
each_client_in_turn a Accepts n p k f r framed =
    let v = NetworkReach-AllInTurn n.links a Accepts r (IsFreshNetwork-AllInTurn n f) k in
    let (done, pending, split, queued) =
      arrive_in_order (forward (swap (n.links k))) (forward (swap (p.links k))) (f.from_clients k)
        v.joined.back framed in
    (done, pending, split, ap contents v.logged ∙ queued)
