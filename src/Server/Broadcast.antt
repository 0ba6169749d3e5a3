-- ===== src/Server/Broadcast.antt =====
-- MessageAllClients of net_server.h.
use servy.Prelude.{
  ◌<◌, ◌^◌, ℕ, ◌≡◌, refl, ap, inl, inr, Bool, false, not, ◌&&◌, ◌||◌, List, [], ◌∷◌, ◌++◌, map,
  Option, some, none, if◌then◌else◌, Bool-cases,
}
use servy.Message.{Message, MsgType, push, pop, new, to_bytes, of_bytes}
use servy.Message.RoundTrip.{pop-push₄, of_bytes-to_bytes₄}
use servy.Archive.{Archive}
use servy.Client
use servy.Server.{
  Server, Connection, visit, visit_one, is_client, remove_null, message_all_clients, on_message,
}

-- The clients of a list that pass a test, in order.
unfoldable pub select : (ℕ → Bool) → List ℕ → List ℕ
select p [] = []
select p (c ∷ cs) = if p c then c ∷ select p cs else select p cs

module _ (conns : ℕ → Connection) (msg : Message) (ignore : Option ℕ) where
  abbrev pub is_up : ℕ → Bool
  is_up c = (conns c).is_open

  abbrev pub addressed : ℕ → Bool
  addressed c = (conns c).is_open && not (is_client ignore c)

  slot : ℕ → Option ℕ
  slot c = if is_up c then some c else none

  any_down : List ℕ → Bool
  any_down [] = false
  any_down (c ∷ cs) = not (is_up c) || any_down cs

  post : ℕ → ℕ × Message
  post c = (c, msg)

  -- What the loop makes of clients none of which is null.
  visit-map :
      (cs : List ℕ)
      → visit conns msg ignore (map some cs)
        ≡ some (record {
          slots = map slot cs;
          sent = map post (select addressed cs);
          invalid = any_down cs;
        })
  unfolding visit visit_one slot post any_down select
  visit-map [] = refl
  visit-map (c ∷ cs) = elim (Bool-cases (conns c).is_open) [
    | inl up ↦ elim (Bool-cases (is_client ignore c)) [
      | inl e ↦ rw (up, e, visit-map cs)
      | inr e ↦ rw (up, e, visit-map cs)
    ]
    | inr down ↦ rw (down, visit-map cs)
  ]

  remove_null-slots : (cs : List ℕ) → remove_null (map slot cs) ≡ map some (select is_up cs)
  unfolding remove_null slot select
  remove_null-slots [] = refl
  remove_null-slots (c ∷ cs) = elim (Bool-cases (conns c).is_open) [
    | inl up ↦ rw up (ap (◌∷◌ (some c)) (remove_null-slots cs))
    | inr down ↦ rw down (remove_null-slots cs)
  ]

  slots_all_up : (cs : List ℕ) → any_down cs ≡ false → map slot cs ≡ map some (select is_up cs)
  unfolding any_down slot select
  slots_all_up [] h = refl
  slots_all_up (c ∷ cs) h = elim (Bool-cases (conns c).is_open) [
    | inl up ↦ rw up (ap (◌∷◌ (some c)) (slots_all_up cs (rw up at h)))
    | inr down ↦ absurd (cc (rw down at h))
  ]

  kept :
      (cs : List ℕ)
      → (if any_down cs then remove_null (map slot cs) else map slot cs)
        ≡ map some (select is_up cs)
  kept cs = elim (Bool-cases (any_down cs)) [
    | inl e ↦ rw e (remove_null-slots cs)
    | inr e ↦ rw e (slots_all_up cs e)
  ]

-- Where no client in the container is null, every client that is connected and is not the ignored
-- one is sent the message once, in the order of the container, and the clients that are not
-- connected leave the container; the order of the others stays.
pub broadcast :
    (s : Server) (msg : Message) (ignore : Option ℕ) (cs : List ℕ)
    → s.connections ≡ map some cs
    → message_all_clients s msg ignore
      ≡ some (record s {
        connections = map some (select (is_up s.conns msg ignore) cs);
        outbox = s.outbox ++ map (λ c. (c, msg)) (select (addressed s.conns msg ignore) cs);
      })
unfolding message_all_clients post
broadcast s msg ignore cs e = rw (e, visit-map s.conns msg ignore cs, kept s.conns msg ignore cs)

-- A client that greets all has every other connected client of the container sent one message, from
-- which that client reads the greeter's id.
pub greeting_heard :
    (a : Archive) (s : Server) (client : ℕ) (cs : List ℕ)
    → s.connections ≡ map some cs
    → (s.conns client).id < 2 ^ 32
    → (msg : Message) × (bytes : List ℕ) × (on_message a s client Client.message_all
        ≡ some (record s {
          connections = map some (select (is_up s.conns msg (some client)) cs);
          outbox =
              s.outbox ++ map (λ c. (c, msg)) (select (addressed s.conns msg (some client)) cs);
        }))
      × (msg.id ≡ MsgType.server_message)
      × (pop msg 4 ≡ some (bytes, new MsgType.server_message))
      × (of_bytes bytes ≡ (s.conns client).id)
unfolding on_message push
greeting_heard a s client cs e h =
    let id = (s.conns client).id in
    let msg = push (new MsgType.server_message) (to_bytes 4 id) in
    (
      msg,
      to_bytes 4 id,
      broadcast s msg (some client) cs e,
      refl,
      pop-push₄ (new MsgType.server_message) id refl,
      of_bytes-to_bytes₄ id h,
    )
