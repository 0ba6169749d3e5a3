-- ===== src/Connection/Sending.antt =====
-- The handlers of the writing end (net_connection.h): at most one write is pending, and what is still
-- to be written is the rest of the message at the front of the queue and the messages behind it.
use mathlib.Core.List.{append_assoc, append-nil}
use servy.Prelude.{
  ℕ, ◌≡◌, refl, ap, sym, ◌∙◌, true, false, inl, inr, List, [], ◌∷◌, ◌++◌, some, length, Bool-cases,
  ltb, if◌then◌else◌,
}
use mathlib.Core.Path.{subst}
use mathlib.Core.Option.{some-injective}
use servy.Message.{Message}
use servy.TsQueue.{front, pop_front}
use servy.Connection.{
  Connection, Buffer, header, body, validation, Write, close, header_bytes, write_header,
  write_body, send, next_message, on_header_written, on_body_written, on_validation_written,
  on_written,
}
use servy.Connection.Wire.{encode, encode_all, encode_all-snoc}
use servy.Prelude.{only_member, no_member}
use servy.Connection.Writing.{Writing, idle, in_header, in_body, stopped, only_write}
use servy.Connection.Wire.{body_empty}

-- The front of the queue that a header is written of.
write_header_lem :
    (c : Connection) (m : Message) (q : List Message)
    → c.messages_out ≡ m ∷ q
    → write_header c
      ≡ some
          (record c { writes = c.writes ++ record { what = header; left = header_bytes m } ∷ [] })
unfolding write_header front
write_header_lem c m q e = rw e

pub write_body_lem :
    (c : Connection) (m : Message) (q : List Message)
    → c.messages_out ≡ m ∷ q
    → write_body c
      ≡ some (record c { writes = c.writes ++ record { what = body; left = m.body } ∷ [] })
unfolding write_body front
write_body_lem c m q e = rw e

queue_grows :
    (xs : List ℕ) (q : List Message) (m : Message)
    → xs ++ encode_all q ++ encode m ≡ xs ++ encode_all (q ++ m ∷ [])
queue_grows xs q m = rw (encode_all-snoc q m, append_assoc xs (encode_all q) (encode m))

-- `Send` queues the message, and writes its header only if no other message is under way.
pub send-Writing :
    (c : Connection) (rest : List ℕ) (msg : Message)
    → Writing c rest
    → (c' : Connection) × (send c msg ≡ some c') × Writing c' (rest ++ encode msg)
unfolding send write_header front encode encode_all
send-Writing c rest msg (idle o w r) = (
  record c {
    messages_out = msg ∷ [];
    writes = c.writes ++ record { what = header; left = header_bytes msg } ∷ [];
  },
  rw o,
  in_header msg [] (header_bytes msg) refl (rw w) (rw r (sym (append-nil (encode msg)))),
)
send-Writing c rest msg (in_header m q left o w r) = (
  record c { messages_out = c.messages_out ++ msg ∷ [] },
  rw o,
  in_header m (q ++ msg ∷ []) left (rw o) w
      (ap (λ t. t ++ encode msg) r ∙ queue_grows (left ++ m.body) q msg),
)
send-Writing c rest msg (in_body m q left o w r) = (
  record c { messages_out = c.messages_out ++ msg ∷ [] },
  rw o,
  in_body m (q ++ msg ∷ []) left (rw o) w (ap (λ t. t ++ encode msg) r ∙ queue_grows left q msg),
)
send-Writing c rest msg (stopped m q o w d) = (
  record c { messages_out = c.messages_out ++ msg ∷ [] },
  rw o,
  stopped m (q ++ msg ∷ []) (rw o) w d,
)

-- A byte of the pending write goes to the wire.
pub transfer-Writing :
    (c : Connection) (rest : List ℕ) (what : Buffer) (b : ℕ) (left : List ℕ) (pre post : List Write)
    → Writing c rest
    → c.writes ≡ pre ++ record { what = what; left = b ∷ left } ∷ post
    → (rest' : List ℕ) × (rest ≡ b ∷ rest')
      × Writing (record c { writes = pre ++ record { what = what; left = left } ∷ post }) rest'
transfer-Writing c rest what b left pre post (idle o w r) h = absurd (no_member _ _ pre post w h)
transfer-Writing c rest what b left pre post (in_header m q left' o w r) h =
    let (f, e, p, p') = only_write pre post w h in
    (
      left ++ m.body ++ encode_all q,
      r ∙ ap (λ t. t ++ m.body ++ encode_all q) e,
      in_header m q left o (rw (p, p', ← f)) refl,
    )
transfer-Writing c rest what b left pre post (in_body m q left' o w r) h =
    let (f, e, p, p') = only_write pre post w h in
    (
      left ++ encode_all q,
      r ∙ ap (λ t. t ++ encode_all q) e,
      in_body m q left o (rw (p, p', ← f)) refl,
    )
transfer-Writing c rest what b left pre post (stopped m q o w d) h =
    absurd (no_member _ _ pre post w h)

-- The next message of the queue, behind the one that has been written.
next_message-Writing :
    (c : Connection) (m : Message) (q : List Message)
    → c.messages_out ≡ m ∷ q
    → c.writes ≡ []
    → (c' : Connection) × (next_message c ≡ some c') × Writing c' (encode_all q)
unfolding next_message pop_front write_header front encode_all encode
next_message-Writing c m [] o w = (record c { messages_out = [] }, rw o, idle refl w refl)
next_message-Writing c m (n ∷ q) o w = (
  record c {
    messages_out = n ∷ q;
    writes = c.writes ++ record { what = header; left = header_bytes n } ∷ [];
  },
  rw o,
  in_header n q (header_bytes n) refl (rw w) refl,
)

pub front_lem : (q r : List Message) (m : Message) → q ≡ m ∷ r → front q ≡ some m
unfolding front
front_lem q r m e = rw e

pub header_written_lem :
    (c : Connection) (m : Message)
    → front c.messages_out ≡ some m
    → on_header_written true c ≡ (if ltb 0 (length m.body) then write_body c else next_message c)
unfolding on_header_written
header_written_lem c m e = rw e

header_written-Writing :
    (c : Connection) (m : Message) (q : List Message)
    → c.messages_out ≡ m ∷ q
    → c.writes ≡ []
    → (c' : Connection) × (on_header_written true c ≡ some c') × Writing c' (m.body ++ encode_all q)
header_written-Writing c m q o w = elim (Bool-cases (ltb 0 (length m.body))) [
  | inl some_bytes ↦ (
    record c { writes = c.writes ++ record { what = body; left = m.body } ∷ [] },
    header_written_lem c m (front_lem _ q m o) ∙ rw some_bytes (write_body_lem c m q o),
    in_body m q m.body o (rw w) refl,
  )
  | inr no_bytes ↦
      let (c', e, v) = next_message-Writing c m q o w in
      (
        c',
        header_written_lem c m (front_lem _ q m o) ∙ rw no_bytes e,
        rw (body_empty m.body no_bytes) v,
      )
]

-- A write that is done is followed by the body, by the next message or by nothing.
pub completes-Writing :
    (c : Connection) (rest : List ℕ) (what : Buffer) (pre post : List Write)
    → Writing c rest
    → c.writes ≡ pre ++ record { what = what; left = [] } ∷ post
    → (c' : Connection) × (on_written what true (record c { writes = pre ++ post }) ≡ some c')
      × Writing c' rest
unfolding on_written on_body_written
completes-Writing c rest what pre post (idle o w r) h = absurd (no_member _ _ pre post w h)
completes-Writing c rest what pre post (in_header m q left o w r) h =
    let (f, e, p, p') = only_write pre post w h in
    let done = header_written-Writing (record c { writes = pre ++ post }) m q o (rw (p, p')) in
    rw (← f, r, e) done
completes-Writing c rest what pre post (in_body m q left o w r) h =
    let (f, e, p, p') = only_write pre post w h in
    let done = next_message-Writing (record c { writes = pre ++ post }) m q o (rw (p, p')) in
    rw (← f, r, e) done
completes-Writing c rest what pre post (stopped m q o w d) h = absurd (no_member _ _ pre post w h)

on_written_failed : (what : Buffer) (c : Connection) → on_written what false c ≡ some (close c)
unfolding on_written on_header_written on_body_written on_validation_written
on_written_failed header c = refl
on_written_failed body c = refl
on_written_failed validation c = refl

-- A write that fails closes the connection, and nothing more is written.
pub fails-Writing :
    (c c' : Connection) (rest : List ℕ) (w : Write) (pre post : List Write)
    → Writing c rest
    → c.writes ≡ pre ++ w ∷ post
    → on_written w.what false (record c { writes = pre ++ post }) ≡ some c'
    → Writing c' rest
fails-Writing c c' rest x pre post v h k =
    subst (λ d. Writing d rest)
      (some-injective _ _ (sym (on_written_failed x.what (record c { writes = pre ++ post })) ∙ k))
      (failed v)
  where
    failed : Writing c rest → Writing (close (record c { writes = pre ++ post })) rest
    failed (idle o w r) = absurd (no_member _ _ pre post w h)
    failed (in_header m q left o w r) =
        let (e, p, p') = only_member _ _ _ pre post w h in stopped m q o (rw (p, p')) refl
    failed (in_body m q left o w r) =
        let (e, p, p') = only_member _ _ _ pre post w h in stopped m q o (rw (p, p')) refl
    failed (stopped m q o w d) = absurd (no_member _ _ pre post w h)
