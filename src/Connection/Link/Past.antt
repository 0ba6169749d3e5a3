-- ===== src/Connection/Link/Past.antt =====
-- An end whose handshake is over: no validation is pending, whatever it sends and reads
-- (net_connection.h).
use servy.Prelude.{
  ℕ, ◌≡◌, ◌≢◌, refl, sym, ◌∙◌, inl, inr, Bool, true, false, List, [], ◌∷◌, ◌++◌, some, length, All,
  All-append, bound_some, if_some, Bool-cases, ltb, not,
}
use mathlib.Core.Path.{subst}
use mathlib.Core.Option.{some-injective}
use servy.Message.{Message, of_bytes, split_at}
use servy.TsQueue.{push_back, front, pop_front, empty}
use servy.Connection.{
  Connection, Buffer, header, body, validation, Write, Read, close, send, write_header, write_body,
  next_message, on_written, on_read, on_header_written, on_body_written, on_validation_written,
  on_header_read, on_body_read, add_to_incoming, read_header, read_body,
}

abbrev pub WritePast : Write → Type 0
WritePast w = w.what ≢ validation

abbrev pub ReadPast : Read → Type 0
ReadPast r = r.what ≢ validation

pub record IsPast (c : Connection) : Type 0 where
  pub writes : All WritePast c.writes
  pub reads : All ReadPast c.reads

pub middle {ℓ} :
    {A : Type ℓ} (P : A → Type 0) (pre post : List A) (x : A) → All P (pre ++ x ∷ post) → P x
middle P [] post x h = h.0
middle P (y ∷ pre) post x h = middle P pre post x h.1

pub without {ℓ} :
    {A : Type ℓ} (P : A → Type 0) (pre post : List A) (x : A)
    → All P (pre ++ x ∷ post)
    → All P (pre ++ post)
without P [] post x h = h.1
without P (y ∷ pre) post x h = (h.0, without P pre post x h.1)

pub header_ne : header ≢ validation
header_ne e = cc

body_ne : body ≢ validation
body_ne e = cc

-- One more write, or one more read.
more_writes :
    (c : Connection) (q : List Message) (what : Buffer) (left : List ℕ)
    → what ≢ validation
    → IsPast c
    → IsPast (record c {
      messages_out = q;
      writes = c.writes ++ record { what = what; left = left } ∷ [];
    })
more_writes c q what left n v = record {
  writes = All-append WritePast c.writes _ v.writes (n, tt);
  reads = v.reads;
}

more_reads :
    (c : Connection) (what : Buffer) (count : ℕ)
    → what ≢ validation
    → IsPast c
    → All ReadPast (c.reads ++ record { what = what; count = count } ∷ [])
more_reads c what count n v = All-append ReadPast c.reads _ v.reads (n, tt)

write_header-IsPast : (c d : Connection) → write_header c ≡ some d → IsPast c → IsPast d
unfolding write_header
write_header-IsPast c d h v =
    let (m, _, e) = bound_some (front c.messages_out) _ d h in
    subst IsPast (some-injective _ _ e) (more_writes c c.messages_out header _ header_ne v)

write_body-IsPast : (c d : Connection) → write_body c ≡ some d → IsPast c → IsPast d
unfolding write_body
write_body-IsPast c d h v =
    let (m, _, e) = bound_some (front c.messages_out) _ d h in
    subst IsPast (some-injective _ _ e) (more_writes c c.messages_out body _ body_ne v)

requeued : (c : Connection) (q : List Message) → IsPast c → IsPast (record c { messages_out = q })
requeued c q v = record { writes = v.writes; reads = v.reads }

pub send-IsPast : (c d : Connection) (msg : Message) → send c msg ≡ some d → IsPast c → IsPast d
unfolding send
send-IsPast c d msg h v =
    let queued = requeued c (push_back c.messages_out msg) v in
    elim (if_some (not (empty c.messages_out)) _ _ d h) [
      | inl (_, e) ↦ subst IsPast (some-injective _ _ e) queued
      | inr (_, e) ↦ write_header-IsPast _ d e queued
    ]

next_message-IsPast : (c d : Connection) → next_message c ≡ some d → IsPast c → IsPast d
unfolding next_message
next_message-IsPast c d h v =
    let ((m, rest), _, h') = bound_some (pop_front c.messages_out) _ d h in
    elim (if_some (empty rest) _ _ d h') [
      | inl (_, e) ↦ subst IsPast (some-injective _ _ e) (requeued c rest v)
      | inr (_, e) ↦ write_header-IsPast _ d e (requeued c rest v)
    ]

pub on_written_failed : (what : Buffer) (c : Connection) → on_written what false c ≡ some (close c)
unfolding on_written on_header_written on_body_written on_validation_written
on_written_failed header c = refl
on_written_failed body c = refl
on_written_failed validation c = refl

pub on_written-IsPast :
    (what : Buffer) (ok : Bool) (c d : Connection)
    → what ≢ validation
    → on_written what ok c ≡ some d
    → IsPast c
    → IsPast d
unfolding on_written on_header_written on_body_written
on_written-IsPast what false c d n h v =
    subst IsPast (some-injective _ _ (sym (on_written_failed what c) ∙ h))
      (record { writes = v.writes; reads = v.reads })
on_written-IsPast header true c d n h v =
    let (m, _, h') = bound_some (front c.messages_out) _ d h in
    elim (if_some (ltb 0 (length m.body)) _ _ d h') [
      | inl (_, e) ↦ write_body-IsPast c d e v
      | inr (_, e) ↦ next_message-IsPast c d e v
    ]
on_written-IsPast body true c d n h v = next_message-IsPast c d h v
on_written-IsPast validation true c d n h v = absurd (n refl)

header_read-IsPast :
    (bytes : List ℕ) (c : Connection) → IsPast c → IsPast (on_header_read true bytes c)
unfolding on_header_read read_body add_to_incoming read_header
header_read-IsPast bytes c v = elim (Bool-cases (ltb 0 (of_bytes (split_at 4 bytes).1))) [
  | inl e ↦ rw e (record { writes = v.writes; reads = more_reads c body _ body_ne v })
  | inr e ↦ rw e (record { writes = v.writes; reads = more_reads c header 8 header_ne v })
]

pub on_read-IsPast :
    (what : Buffer) (ok : Bool) (bytes : List ℕ) (c : Connection)
    → what ≢ validation
    → IsPast c
    → IsPast (on_read what ok bytes c)
unfolding on_read on_header_read on_body_read add_to_incoming read_header
on_read-IsPast header false bytes c n v = record { writes = v.writes; reads = v.reads }
on_read-IsPast body false bytes c n v = record { writes = v.writes; reads = v.reads }
on_read-IsPast header true bytes c n v = header_read-IsPast bytes c v
on_read-IsPast body true bytes c n v = record {
  writes = v.writes;
  reads = more_reads c header 8 header_ne v;
}
on_read-IsPast validation ok bytes c n v = absurd (n refl)
