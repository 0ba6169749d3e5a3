-- ===== src/Tests/Answers.antt =====
-- A network at work: the server's answer to the ping is read by the client.
use mathlib.Core.Path.{subst}
use mathlib.Core.List.{append_assoc, append-nil}
use servy.Prelude.{ℕ, ◌≡◌, refl, sym, inl, inr, true, List, [], ◌∷◌, ◌++◌, none}
use servy.TsQueue.{front}
use servy.Message.{Message, code_of, of_code, to_bytes, of_bytes, split_at}
use servy.Connection.{
  Buffer, send, write_header, header_bytes, on_read, on_header_read, add_to_incoming, read_header,
}
use servy.Connection.Arrival.{arrived, contents}
use servy.Connection.Link.{Link, LinkStep, sends, transfers, reads}
use servy.Network.{Network, put, posts_to, NetworkReach, next, link_works}
use servy.Network.Replies.{replies_in_turn}
use servy.Tests.Traffic.{sample}
use servy.Tests.Networks.{
  ping, ping-IsFramed, fresh, start, start-IsFreshNetwork, moving, put-put, Any, letter,
  arrived_link, answered, answered-Reach,
}

-- The answer on its way back.
abbrev returning : List ℕ → List ℕ → Link
returning left wire = record arrived_link {
  a = record arrived_link.a {
    messages_out = ping ∷ [];
    writes = record { what = Buffer.header; left = left } ∷ [];
  };
  from_a = wire;
  sent_a = ping ∷ [];
}

abbrev after_answer : Link → Network
after_answer l = record answered { links = put fresh 1 l }

one_posted : posts_to 1 answered.system.server.outbox ≡ ping ∷ []
unfolding posts_to
one_posted = refl

-- A step of the link after which nothing new is in the server's queue.
goes_on :
    (l m : Link)
    → m.a.is_open ≡ true
    → m.a.messages_in ≡ letter ∷ []
    → l.a.messages_in ≡ letter ∷ []
    → m.sent_a ≡ ping ∷ []
    → LinkStep l m
    → NetworkReach sample Any start (after_answer l)
    → NetworkReach sample Any start (after_answer m)
goes_on l m o e e' q st r =
    subst (λ (f : ℕ → Link). NetworkReach sample Any start (record answered { links = f }))
      (put-put l m)
      (next r (link_works 1 m [] [] st (rw (e, e') refl) tt (rw q one_posted) (rw o refl)))

returned :
    (left wire : List ℕ)
    → NetworkReach sample Any start (after_answer (returning left wire))
    → NetworkReach sample Any start (after_answer (returning [] (wire ++ left)))
returned [] wire r =
    subst (λ w. NetworkReach sample Any start (after_answer (returning [] w)))
      (sym (append-nil wire)) r
returned (b ∷ left) wire r =
    let l = returning (b ∷ left) wire in
    let m = returning left (wire ++ b ∷ []) in
    subst (λ w. NetworkReach sample Any start (after_answer (returning [] w)))
      (append_assoc wire (b ∷ []) left)
      (returned left (wire ++ b ∷ []) (
        goes_on l m refl refl refl refl (inl (transfers Buffer.header b left [] [] refl refl refl))
          r))

-- The server's end starts to write it, and the client reads it.
returning-Reach : NetworkReach sample Any start (after_answer (returning (header_bytes ping) []))
unfolding send write_header front
returning-Reach =
    goes_on arrived_link (returning (header_bytes ping) []) refl refl refl refl
      (inl (sends ping (returning (header_bytes ping) []).a refl refl))
      (subst (λ (f : ℕ → Link). NetworkReach sample Any start (record answered { links = f }))
        (put-put (moving [] (header_bytes ping)) arrived_link) answered-Reach)

abbrev read_link : Link
read_link = record (returning [] []) {
  b = record arrived_link.b {
    temporary_in = ping;
    messages_in = record { remote = none; msg = ping } ∷ [];
  };
}

read-Reach : NetworkReach sample Any start (after_answer read_link)
unfolding on_read on_header_read add_to_incoming read_header header_bytes to_bytes code_of of_code
    of_bytes split_at
read-Reach =
    goes_on (returning [] (header_bytes ping)) read_link refl refl refl refl
      (inr (reads Buffer.header (header_bytes ping) [] [] [] refl refl refl refl))
      (returned (header_bytes ping) [] returning-Reach)

replies_in_turn_example :
    (done pending : List Message) × (posts_to 1 answered.system.server.outbox ≡ done ++ pending)
    × (contents read_link.b.messages_in ≡ arrived [] done)
replies_in_turn_example =
    replies_in_turn sample Any start (after_answer read_link) 1 start-IsFreshNetwork read-Reach
      (ping-IsFramed, tt)
