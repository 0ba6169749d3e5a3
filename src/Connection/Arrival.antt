-- ===== src/Connection/Arrival.antt =====
-- The messages that a reading end queues for those that were sent (net_connection.h): the temporary
-- message keeps its body where a message without one arrives.
use servy.Prelude.{ℕ, ◌≡◌, refl, true, List, [], ◌∷◌, ◌++◌, length, arith, ltb}
use servy.Message.{Message, OwnedMessage}

-- The body with which a message is delivered, `old` being that of the message before.
unfoldable pub delivered_body : List ℕ → Message → List ℕ
delivered_body old m = elim m.body [ [] ↦ old | b ∷ bytes ↦ b ∷ bytes ]

-- The body that the temporary message keeps after a series of messages.
unfoldable pub kept_body : List ℕ → List Message → List ℕ
kept_body old [] = old
kept_body old (m ∷ ms) = kept_body (delivered_body old m) ms

-- A series of messages as they are delivered.
unfoldable pub arrived : List ℕ → List Message → List Message
arrived old [] = []
arrived old (m ∷ ms) = record m { body = delivered_body old m } ∷ arrived (delivered_body old m) ms

pub kept_body-snoc :
    (old : List ℕ) (ms : List Message) (m : Message)
    → kept_body old (ms ++ m ∷ []) ≡ delivered_body (kept_body old ms) m
unfolding kept_body
kept_body-snoc old [] m = refl
kept_body-snoc old (x ∷ ms) m = kept_body-snoc (delivered_body old x) ms m

pub arrived-snoc :
    (old : List ℕ) (ms : List Message) (m : Message)
    → arrived old (ms ++ m ∷ [])
      ≡ arrived old ms ++ record m { body = delivered_body (kept_body old ms) m } ∷ []
unfolding arrived kept_body
arrived-snoc old [] m = refl
arrived-snoc old (x ∷ ms) m = rw (arrived-snoc (delivered_body old x) ms m)

-- The messages of a queue of owned messages.
unfoldable pub contents : List OwnedMessage → List Message
contents [] = []
contents (o ∷ os) = o.msg ∷ contents os

pub contents-snoc :
    (os : List OwnedMessage) (o : OwnedMessage)
    → contents (os ++ o ∷ []) ≡ contents os ++ o.msg ∷ []
unfolding contents
contents-snoc [] o = refl
contents-snoc (x ∷ os) o = rw (contents-snoc os o)

pub delivered_body_none : (old : List ℕ) (m : Message) → m.body ≡ [] → delivered_body old m ≡ old
unfolding delivered_body
delivered_body_none old m e = rw e

pub delivered_body_some :
    (old : List ℕ) (m : Message) → ltb 0 (length m.body) ≡ true → delivered_body old m ≡ m.body
unfolding delivered_body
delivered_body_some old m h = ground arith
