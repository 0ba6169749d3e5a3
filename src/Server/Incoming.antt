-- ===== src/Server/Incoming.antt =====
-- What a call of `Update` does with the incoming queue, and the requests of clients that reach the
-- scheduler through it (net_server.h, SimpleServer.cpp, client.cpp).
use servy.Prelude.{
  ◌>>=◌, ℕ, zero, suc, ◌≤◌, ◌≡◌, refl, ap, inl, inr, List, [], ◌∷◌, map, Option, some, length,
  arith, All, Option-cases,
}
use servy.Run.{Run}
use servy.Message.RoundTrip.{packed}
use servy.Message
use servy.Message.{Message, OwnedMessage}
use servy.Archive.{Archive, fix_version}
use servy.Scheduler.{Scheduler}
use servy.Server.{Server, with_scheduler}
use servy.Server.Requests.{
  Request, message_of, asked, IsCarried, type_of, message_of-packed, on_message_run,
  received_run-packed, packed-id,
}
use servy.Server.Update.{deliver, rounds, update}

-- All messages of a list handled in order.
unfoldable pub handle_all : Archive → Server → List OwnedMessage → Option Server
handle_all a s [] = some s
handle_all a s (m ∷ q) = do s' ← deliver a s m; handle_all a s' q

unfoldable pub take : ℕ → List OwnedMessage → List OwnedMessage
take zero q = []
take (suc n) [] = []
take (suc n) (m ∷ q) = m ∷ take n q

unfoldable pub drop : ℕ → List OwnedMessage → List OwnedMessage
drop zero q = q
drop (suc n) [] = []
drop (suc n) (m ∷ q) = drop n q

rounds_lem :
    (a : Archive) (n : ℕ) (s : Server) (q : List OwnedMessage)
    → rounds a n s q ≡ (handle_all a s (take n q) >>= λ s'. some (s', drop n q))
unfolding rounds handle_all take drop
rounds_lem a zero s q = refl
rounds_lem a (suc n) s [] = refl
rounds_lem a (suc n) s (m ∷ q) = elim (Option-cases (deliver a s m)) [
  | inl e ↦ rw e
  | inr (s', e) ↦ rw e (rounds_lem a n s' q)
]

-- One call of `Update` hands the messages that are in the queue to `OnMessage` one after the other,
-- as many as it is allowed to, and leaves the rest in the queue in their order.
pub update_in_order :
    (a : Archive) (n : ℕ) (s : Server) (q : List OwnedMessage)
    → update a n s q ≡ (handle_all a s (take n q) >>= λ s'. some (s', drop n q))
unfolding update
update_in_order a n s q = rounds_lem a n s q

-- A request about a run, and the client that sends it.
pub record Post : Type 0 where
  pub client : ℕ
  pub request : Request
  pub run : Run

-- What the clients put on the wire for a series of requests, and the server receives.
unfoldable pub posted : Archive → List Post → Option (List OwnedMessage)
posted a [] = some []
posted a (p ∷ ps) = do
  m ← message_of a p.request p.run
  ms ← posted a ps
  some (record { remote = some p.client; msg = m } ∷ ms)

-- What the requests ask of the scheduler, in their order.
unfoldable pub asked_all : Scheduler → List Post → Option Scheduler
asked_all s [] = some s
asked_all s (p ∷ ps) = do t ← asked p.request s p.run; asked_all t ps

-- A run whose archive fits a message and is read back.
pub record IsReadable (a : Archive) (p : Post) : Type 0 where
  pub carried : IsCarried (a.save_run p.run)
  pub readable : a.load_run (fix_version (a.save_run p.run)) ≡ some p.run

abbrev letter : Archive → Post → OwnedMessage
letter a p = record {
  remote = some p.client;
  msg = packed (package.servy.Message.new (type_of p.request)) (a.save_run p.run) 2;
}

posted_lem :
    (a : Archive) (ps : List Post) → All (IsReadable a) ps → posted a ps ≡ some (map (letter a) ps)
unfolding posted
posted_lem a [] h = refl
posted_lem a (p ∷ ps) h = rw (message_of-packed a p.request p.run h.0.carried, posted_lem a ps h.1)

deliver-letter :
    (a : Archive) (s : Server) (p : Post)
    → IsReadable a p
    → deliver a s (letter a p) ≡ with_scheduler s (asked p.request s.scheduler p.run)
unfolding deliver
deliver-letter a s p v =
    on_message_run a s p.client p.request _ p.run
      (packed-id (type_of p.request) (a.save_run p.run) 2)
      (received_run-packed a (type_of p.request) p.run v.carried v.readable)

handle_all-letters :
    (a : Archive) (ps : List Post) (s : Server)
    → All (IsReadable a) ps
    → handle_all a s (map (letter a) ps) ≡ with_scheduler s (asked_all s.scheduler ps)
unfolding handle_all asked_all
handle_all-letters a [] s h = refl
handle_all-letters a (p ∷ ps) s h = elim (Option-cases (asked p.request s.scheduler p.run)) [
  | inl e ↦ rw (deliver-letter a s p h.0, e)
  | inr (t, e) ↦
      rw (deliver-letter a s p h.0, e) (handle_all-letters a ps (record s { scheduler = t }) h.1)
]

take_all :
    (a : Archive) (n : ℕ) (ps : List Post)
    → length ps ≤ n
    → take n (map (letter a) ps) ≡ map (letter a) ps
unfolding take
take_all a zero [] h = refl
take_all a zero (p ∷ ps) h = absurd (omega arith)
take_all a (suc n) [] h = refl
take_all a (suc n) (p ∷ ps) h = ap (◌∷◌ (letter a p)) (take_all a n ps (omega arith))

drop_all : (a : Archive) (n : ℕ) (ps : List Post) → length ps ≤ n → drop n (map (letter a) ps) ≡ []
unfolding drop
drop_all a zero [] h = refl
drop_all a zero (p ∷ ps) h = absurd (omega arith)
drop_all a (suc n) [] h = refl
drop_all a (suc n) (p ∷ ps) h = drop_all a n ps (omega arith)

-- A series of requests about runs, sent by any clients and received in one call of `Update` that is
-- allowed as many messages, changes the scheduler as the requests ask, one after the other, and
-- nothing else of the server; the queue is empty then. It is defined where these changes are.
pub requests_in_order :
    (a : Archive) (n : ℕ) (s : Server) (ps : List Post)
    → All (IsReadable a) ps
    → length ps ≤ n
    → (posted a ps >>= update a n s)
      ≡ (with_scheduler s (asked_all s.scheduler ps) >>= λ t. some (t, []))
requests_in_order a n s ps h k = rw (
  posted_lem a ps h,
  update_in_order a n s (map (letter a) ps),
  take_all a n ps k,
  drop_all a n ps k,
  handle_all-letters a ps s h,
)
