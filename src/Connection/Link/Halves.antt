-- ===== src/Connection/Link/Halves.antt =====
-- What the handlers of one direction leave of the other (net_connection.h).
use servy.Prelude.{
  ℕ, ◌≡◌, ◌≢◌, refl, ◌∙◌, inl, inr, true, List, some, length, Bool-cases, bound_some, if_some, ltb,
  not,
}
use mathlib.Core.Path.{subst}
use mathlib.Core.Option.{some-injective}
use servy.Message.{Message, of_bytes, split_at}
use servy.TsQueue.{push_back, front, pop_front, empty}
use servy.Connection.{
  Connection, Buffer, header, body, validation, Write, write_header, write_body, send, next_message,
  on_header_written, on_body_written, on_written, on_read, on_header_read, on_body_read,
  add_to_incoming, read_header, read_body,
}
use servy.Connection.Stream.{SameReading, SameWriting}

abbrev same_reading : (c : Connection) → SameReading c c
same_reading c = record { is_open = refl; temporary_in = refl; reads = refl; messages_in = refl }

-- Whatever is queued and written, what is read stays.
rewritten :
    (c : Connection) (q : List Message) (ws : List Write)
    → SameReading c (record c { messages_out = q; writes = ws })
rewritten c q ws = record { is_open = refl; temporary_in = refl; reads = refl; messages_in = refl }

trans-SameReading : (c d e : Connection) → SameReading c d → SameReading d e → SameReading c e
trans-SameReading c d e s t = record {
  is_open = t.is_open ∙ s.is_open;
  temporary_in = t.temporary_in ∙ s.temporary_in;
  reads = t.reads ∙ s.reads;
  messages_in = t.messages_in ∙ s.messages_in;
}

write_header-SameReading : (c d : Connection) → write_header c ≡ some d → SameReading c d
unfolding write_header
write_header-SameReading c d h =
    let (m, _, e) = bound_some (front c.messages_out) _ d h in
    subst (SameReading c) (some-injective _ _ e) (rewritten c c.messages_out _)

write_body-SameReading : (c d : Connection) → write_body c ≡ some d → SameReading c d
unfolding write_body
write_body-SameReading c d h =
    let (m, _, e) = bound_some (front c.messages_out) _ d h in
    subst (SameReading c) (some-injective _ _ e) (rewritten c c.messages_out _)

pub send-SameReading : (c d : Connection) (msg : Message) → send c msg ≡ some d → SameReading c d
unfolding send
send-SameReading c d msg h =
    let c' = record c { messages_out = push_back c.messages_out msg } in
    let queued = rewritten c (push_back c.messages_out msg) c.writes in
    elim (if_some (not (empty c.messages_out)) _ _ d h) [
      | inl (_, e) ↦ subst (SameReading c) (some-injective _ _ e) queued
      | inr (_, e) ↦ trans-SameReading c c' d queued (write_header-SameReading c' d e)
    ]

next_message-SameReading : (c d : Connection) → next_message c ≡ some d → SameReading c d
unfolding next_message
next_message-SameReading c d h =
    let ((m, rest), _, h') = bound_some (pop_front c.messages_out) _ d h in
    let c' = record c { messages_out = rest } in
    let queued = rewritten c rest c.writes in
    elim (if_some (empty rest) _ _ d h') [
      | inl (_, e) ↦ subst (SameReading c) (some-injective _ _ e) queued
      | inr (_, e) ↦ trans-SameReading c c' d queued (write_header-SameReading c' d e)
    ]

-- The handlers of WriteHeader and WriteBody.
pub on_written-SameReading :
    (what : Buffer) (c d : Connection)
    → what ≢ validation
    → on_written what true c ≡ some d
    → SameReading c d
unfolding on_written on_header_written on_body_written
on_written-SameReading header c d n h =
    let (m, _, h') = bound_some (front c.messages_out) _ d h in
    elim (if_some (ltb 0 (length m.body)) _ _ d h') [
      | inl (_, e) ↦ write_body-SameReading c d e
      | inr (_, e) ↦ next_message-SameReading c d e
    ]
on_written-SameReading body c d n h = next_message-SameReading c d h
on_written-SameReading validation c d n h = absurd (n refl)

-- Whatever is read, what is queued and written stays.
add_to_incoming-SameWriting : (c : Connection) → SameWriting c (add_to_incoming c)
unfolding add_to_incoming read_header
add_to_incoming-SameWriting c = record { is_open = refl; messages_out = refl; writes = refl }

on_header_read-SameWriting :
    (bytes : List ℕ) (c : Connection) → SameWriting c (on_header_read true bytes c)
unfolding on_header_read read_body add_to_incoming read_header
on_header_read-SameWriting bytes c = elim (Bool-cases (ltb 0 (of_bytes (split_at 4 bytes).1))) [
  | inl e ↦ rw e (record { is_open = refl; messages_out = refl; writes = refl })
  | inr e ↦ rw e (record { is_open = refl; messages_out = refl; writes = refl })
]

-- The handlers of ReadHeader and ReadBody.
pub on_read-SameWriting :
    (what : Buffer) (bytes : List ℕ) (c : Connection)
    → what ≢ validation
    → SameWriting c (on_read what true bytes c)
unfolding on_read on_body_read add_to_incoming read_header
on_read-SameWriting header bytes c n = on_header_read-SameWriting bytes c
on_read-SameWriting body bytes c n = record { is_open = refl; messages_out = refl; writes = refl }
on_read-SameWriting validation bytes c n = absurd (n refl)
