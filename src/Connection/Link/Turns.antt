-- ===== src/Connection/Link/Turns.antt =====
-- What a handler adds to the incoming queue, and that it keeps whose connection it is
-- (net_connection.h).
use servy.Prelude.{
  ℕ, ◌≡◌, refl, sym, ◌∙◌, inl, inr, Bool, true, false, List, [], ◌∷◌, ◌++◌, Option, some, none,
  length, Bool-cases, bound_some, if_some, ltb, not, All, ◌==◌,
}
use mathlib.Core.Path.{subst}
use mathlib.Core.List.{append-nil}
use mathlib.Core.Option.{some-injective}
use servy.Message.{Message, OwnedMessage, of_bytes, split_at}
use servy.TsQueue.{push_back, front, pop_front, empty}
use servy.Connection.{
  Connection, Owner, server, client, Buffer, header, body, validation, Write, Read, write_header,
  write_body, send, next_message, on_header_written, on_body_written, on_validation_written,
  on_written, on_read, on_header_read, on_body_read, on_validation_read, validate, add_to_incoming,
  read_header, read_body, write_validation,
}
use servy.Connection.Link.{
  Link, swap, EndStep, sends, transfers, completes, write_fails, reads, read_fails, closes,
  LinkStep,
}

-- Whose message it is that a connection adds.
abbrev pub remote_of : Connection → Option ℕ
remote_of c = elim c.owner [ server ↦ some c.self | client ↦ none ]

pub record Turn (c d : Connection) : Type 0 where
  pub same_self : d.self ≡ c.self
  pub same_owner : d.owner ≡ c.owner
  pub added : List OwnedMessage
  pub from_here : All (λ (o : OwnedMessage). o.remote ≡ remote_of c) added
  pub logged : d.messages_in ≡ c.messages_in ++ added

-- A handler that adds nothing.
quiet :
    (c d : Connection)
    → d.self ≡ c.self
    → d.owner ≡ c.owner
    → d.messages_in ≡ c.messages_in
    → Turn c d
quiet c d s o m = record {
  same_self = s;
  same_owner = o;
  added = [];
  from_here = tt;
  logged = m ∙ sym (append-nil c.messages_in);
}

pub unmoved : (c : Connection) → Turn c c
unmoved c = quiet c c refl refl refl

write_header-Turn : (c d : Connection) → write_header c ≡ some d → Turn c d
unfolding write_header
write_header-Turn c d h =
    let (m, _, e) = bound_some (front c.messages_out) _ d h in
    subst (Turn c) (some-injective _ _ e) (quiet c _ refl refl refl)

write_body-Turn : (c d : Connection) → write_body c ≡ some d → Turn c d
unfolding write_body
write_body-Turn c d h =
    let (m, _, e) = bound_some (front c.messages_out) _ d h in
    subst (Turn c) (some-injective _ _ e) (quiet c _ refl refl refl)

-- Other messages to send, pending operations and answers make no difference.
requeued :
    (c d : Connection) (q : List Message) (ws : List Write) (rs : List Read) (n : ℕ)
    → Turn (record c { messages_out = q; writes = ws; reads = rs; handshake_in = n }) d
    → Turn c d
requeued c d q ws rs n t = record {
  same_self = t.same_self;
  same_owner = t.same_owner;
  added = t.added;
  from_here = t.from_here;
  logged = t.logged;
}

send-Turn : (c d : Connection) (msg : Message) → send c msg ≡ some d → Turn c d
unfolding send
send-Turn c d msg h =
    let q = push_back c.messages_out msg in
    elim (if_some (not (empty c.messages_out)) _ _ d h) [
      | inl (_, e) ↦ subst (Turn c) (some-injective _ _ e) (quiet c _ refl refl refl)
      | inr (_, e) ↦ requeued c d q c.writes c.reads c.handshake_in (write_header-Turn _ d e)
    ]

next_message-Turn : (c d : Connection) → next_message c ≡ some d → Turn c d
unfolding next_message
next_message-Turn c d h =
    let ((m, rest), _, h') = bound_some (pop_front c.messages_out) _ d h in
    elim (if_some (empty rest) _ _ d h') [
      | inl (_, e) ↦ subst (Turn c) (some-injective _ _ e) (quiet c _ refl refl refl)
      | inr (_, e) ↦ requeued c d rest c.writes c.reads c.handshake_in (write_header-Turn _ d e)
    ]

validation_written-Turn :
    (owner : Owner) (c : Connection) → Turn c (elim owner [ client ↦ read_header c | server ↦ c ])
unfolding read_header
validation_written-Turn server c = unmoved c
validation_written-Turn client c = quiet c _ refl refl refl

on_written-Turn :
    (what : Buffer) (ok : Bool) (c d : Connection) → on_written what ok c ≡ some d → Turn c d
unfolding on_written on_header_written on_body_written on_validation_written
on_written-Turn header true c d h =
    let (m, _, h') = bound_some (front c.messages_out) _ d h in
    elim (if_some (ltb 0 (length m.body)) _ _ d h') [
      | inl (_, e) ↦ write_body-Turn c d e
      | inr (_, e) ↦ next_message-Turn c d e
    ]
on_written-Turn body true c d h = next_message-Turn c d h
on_written-Turn validation true c d h =
    subst (Turn c) (some-injective _ _ h) (validation_written-Turn c.owner c)
on_written-Turn header false c d h =
    subst (Turn c) (some-injective _ _ h) (quiet c _ refl refl refl)
on_written-Turn body false c d h = subst (Turn c) (some-injective _ _ h) (quiet c _ refl refl refl)
on_written-Turn validation false c d h =
    subst (Turn c) (some-injective _ _ h) (quiet c _ refl refl refl)

-- The message in `temporary_in` is added, under the name of the connection.
added-Turn :
    (c : Connection) (t : Message) → Turn c (add_to_incoming (record c { temporary_in = t }))
unfolding add_to_incoming read_header
added-Turn c t = record {
  same_self = refl;
  same_owner = refl;
  added = record { remote = remote_of c; msg = t } ∷ [];
  from_here = (refl, tt);
  logged = refl;
}

header_read-Turn : (bytes : List ℕ) (c : Connection) → Turn c (on_header_read true bytes c)
unfolding on_header_read read_body
header_read-Turn bytes c = elim (Bool-cases (ltb 0 (of_bytes (split_at 4 bytes).1))) [
  | inl e ↦ rw e (quiet c _ refl refl refl)
  | inr e ↦ rw e (added-Turn c _)
]

validate-Turn : (owner : Owner) (c : Connection) → Turn c (validate owner c)
unfolding validate read_header write_validation
validate-Turn server c = elim (Bool-cases (c.handshake_in == c.handshake_check)) [
  | inl e ↦ rw e (quiet c _ refl refl refl)
  | inr e ↦ rw e (quiet c _ refl refl refl)
]
validate-Turn client c = quiet c _ refl refl refl

on_read-Turn :
    (what : Buffer) (ok : Bool) (bytes : List ℕ) (c : Connection) → Turn c (on_read what ok bytes c)
unfolding on_read on_header_read on_body_read on_validation_read
on_read-Turn header true bytes c = header_read-Turn bytes c
on_read-Turn body true bytes c = added-Turn c (record c.temporary_in { body = bytes })
on_read-Turn validation true bytes c =
    requeued c _ c.messages_out c.writes c.reads (of_bytes bytes) (validate-Turn c.owner _)
on_read-Turn header false bytes c = quiet c _ refl refl refl
on_read-Turn body false bytes c = quiet c _ refl refl refl
on_read-Turn validation false bytes c = quiet c _ refl refl refl

-- What one end does is a turn of that end.
EndStep-Turn : (l m : Link) → EndStep l m → Turn l.a m.a
EndStep-Turn l m (sends msg c h e) = rw e (send-Turn l.a c msg h)
EndStep-Turn l m (transfers what byte left pre post o h e) = rw e (quiet l.a _ refl refl refl)
EndStep-Turn l m (completes what pre post c h k e) = rw e (
    requeued l.a c l.a.messages_out (pre ++ post) l.a.reads l.a.handshake_in
      (on_written-Turn what true _ c k))
EndStep-Turn l m (write_fails w pre post c h k e) = rw e (
    requeued l.a c l.a.messages_out (pre ++ post) l.a.reads l.a.handshake_in
      (on_written-Turn w.what false _ c k))
EndStep-Turn l m (reads what bytes rest pre post o h k e) = rw e (
    requeued l.a _ l.a.messages_out l.a.writes (pre ++ post) l.a.handshake_in
      (on_read-Turn what true bytes _))
EndStep-Turn l m (read_fails r pre post bytes h e) = rw e (
    requeued l.a _ l.a.messages_out l.a.writes (pre ++ post) l.a.handshake_in
      (on_read-Turn r.what false bytes _))
EndStep-Turn l m (closes e) = rw e (quiet l.a _ refl refl refl)

pub EndStep-other : (l m : Link) → EndStep l m → m.b ≡ l.b
EndStep-other l m (sends msg c h e) = rw e refl
EndStep-other l m (transfers what byte left pre post o h e) = rw e refl
EndStep-other l m (completes what pre post c h k e) = rw e refl
EndStep-other l m (write_fails w pre post c h k e) = rw e refl
EndStep-other l m (reads what bytes rest pre post o h k e) = rw e refl
EndStep-other l m (read_fails r pre post bytes h e) = rw e refl
EndStep-other l m (closes e) = rw e refl

pub LinkStep-Turn : (l m : Link) → LinkStep l m → Turn l.a m.a
LinkStep-Turn l m (inl st) = EndStep-Turn l m st
LinkStep-Turn l m (inr st) =
    subst (Turn l.a) (sym (EndStep-other (swap l) (swap m) st)) (unmoved l.a)
