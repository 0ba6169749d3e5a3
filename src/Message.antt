-- ===== src/Message.antt =====
-- net_message.h: a message is a header and a body of bytes, which `<<` and `>>` use as a stack.
-- A byte is a number below 256. `none` stands for undefined behaviour: a read outside the body.
pub mod Strings
pub mod RoundTrip
pub mod Bounds
use servy.Prelude.{
  ℕ, zero, suc, ◌+◌, ◌-◌, ◌*◌, ◌/◌, ◌%◌, ◌^◌, Bool, List, [], ◌∷◌, ◌++◌, Option, none, some, length,
  ltb, if◌then◌else◌,
}

-- CustomMsgTypes of net_common.h
pub data MsgType : Type 0 where
  server_accept server_deny server_ping message_all server_message send_text send_machine : MsgType
  send_run qstatus move_run_up move_run_down remove_run : MsgType
  -- any other value that a header of 32 bits can hold
  other : ℕ → MsgType

-- The value of an enumerator, and the enumerator of a value.
unfoldable pub code_of : MsgType → ℕ
code_of server_accept = 0
code_of server_deny = 1
code_of server_ping = 2
code_of message_all = 3
code_of server_message = 4
code_of send_text = 5
code_of send_machine = 6
code_of send_run = 7
code_of qstatus = 8
code_of move_run_up = 9
code_of move_run_down = 10
code_of remove_run = 11
code_of (other n) = n

abbrev enumerators : List MsgType
enumerators =
    server_accept ∷ server_deny ∷ server_ping ∷ message_all ∷ server_message ∷ send_text
    ∷ send_machine ∷ send_run ∷ qstatus ∷ move_run_up ∷ move_run_down ∷ remove_run ∷ []

-- The enumerator at a position of a list, for a value `n` behind it an unnamed one.
abbrev enumerator_at : List MsgType → ℕ → ℕ → MsgType
enumerator_at [] i n = other n
enumerator_at (t ∷ ts) zero n = t
enumerator_at (t ∷ ts) (suc i) n = enumerator_at ts i n

unfoldable pub of_code : ℕ → MsgType
of_code n = enumerator_at enumerators n n

pub record Message : Type 0 where
  pub id : MsgType
  pub size : ℕ
  pub body : List ℕ

-- A message and the connection that it came from, null on a client.
pub record OwnedMessage : Type 0 where
  pub remote : Option ℕ
  pub msg : Message

-- A message as it is declared: a header with the given id, no bytes.
abbrev pub new : MsgType → Message
new id = record { id = id; size = 0; body = [] }

-- `header.size = size()`, a 32-bit field
abbrev with_body : Message → List ℕ → Message
with_body msg body = record msg { size = length body % 2 ^ 32; body = body }

-- operator<<: the bytes of the data behind those that are there
unfoldable pub push : Message → List ℕ → Message
push msg bytes = with_body msg (msg.body ++ bytes)

-- The bytes of the body before the last `n`, and the last `n`.
unfoldable pub split_at : ℕ → List ℕ → List ℕ × List ℕ
split_at zero xs = ([], xs)
split_at (suc i) [] = ([], [])
split_at (suc i) (x ∷ xs) = let (front, back) = split_at i xs in (x ∷ front, back)

-- operator>>: the last `n` bytes of the body, which leave it
unfoldable pub pop : Message → ℕ → Option (List ℕ × Message)
pop msg n =
    if ltb (length msg.body) n
    then none
    else let (front, back) = split_at (length msg.body - n) msg.body in
      some (back, with_body msg front)

-- The object representation of an unsigned integer of `w` bytes, lowest byte first.
unfoldable pub to_bytes : ℕ → ℕ → List ℕ
to_bytes zero x = []
to_bytes (suc w) x = (x % 256) ∷ to_bytes w (x / 256)

unfoldable pub of_bytes : List ℕ → ℕ
of_bytes [] = 0
of_bytes (b ∷ bs) = b + 256 * of_bytes bs
