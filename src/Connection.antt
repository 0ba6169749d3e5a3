-- ===== src/Connection.antt =====
-- net_connection.h: one end of a connection. An asynchronous call hands an operation to asio and
-- names the handler that its completion runs; `writes` and `reads` are the operations that are
-- pending on the socket, and the handlers are the functions below, which are told whether the
-- operation succeeded. `none` stands for undefined behaviour: the front of an empty queue.
pub mod Wire
pub mod Stream
pub mod Writing
pub mod Sending
pub mod Arrival
pub mod Reading
pub mod Receiving
pub mod Delivery
pub mod Outcome
pub mod Flush
pub mod Drain
pub mod Handshake
pub mod Link
use Prim.Native.Nat.{bit_and, bit_or, bit_xor}
use servy.Prelude.{
  ◌>>=◌, ℕ, zero, suc, ◌+◌, ◌*◌, ◌/◌, ◌%◌, ◌^◌, Bool, true, false, not, ◌&&◌, List, [], ◌∷◌, ◌++◌,
  Option, none, some, length, ltb, ◌==◌, if◌then◌else◌,
}
use servy.Message.{
  Message, MsgType, OwnedMessage, new as new_message, to_bytes, of_bytes, split_at, code_of,
  of_code,
}
use servy.TsQueue.{front, pop_front, push_back, empty}

-- enum class owner
pub data Owner : Type 0 where
  server client : Owner

-- The three buffers that are written, and the three that are read.
pub data Buffer : Type 0 where
  header body validation : Buffer

-- async_write: its handler, and the bytes of its buffer that the socket has not yet taken.
pub record Write : Type 0 where
  pub what : Buffer
  pub left : List ℕ

-- async_read: its handler, and the number of bytes that it waits for.
pub record Read : Type 0 where
  pub what : Buffer
  pub count : ℕ

pub record Connection : Type 0 where
  -- the address of the object: what `shared_from_this` gives
  pub self : ℕ
  pub owner : Owner
  pub id : ℕ
  pub is_open : Bool
  pub messages_out : List Message
  pub temporary_in : Message
  pub handshake_out : ℕ
  pub handshake_in : ℕ
  pub handshake_check : ℕ
  pub writes : List Write
  pub reads : List Read
  -- what the connection has added to the incoming queue of its owner
  pub messages_in : List OwnedMessage

-- connection::scramble, on `uint64_t`
unfoldable pub scramble : ℕ → ℕ
scramble input =
    let out = bit_xor input 0xDEADBEEFC0DECAFE in
    let swapped =
      bit_or (bit_and out 0xF0F0F0F0F0F0F0 / 2 ^ 4)
        (bit_and out 0x0F0F0F0F0F0F0F * 2 ^ 4 % 2 ^ 64) in
    bit_xor swapped 0xC0DEFACE12345678 % 2 ^ 64

-- The constructor; `now` is the count of the clock, of which a server's connection makes its
-- challenge.
unfoldable pub new : Owner → ℕ → Bool → ℕ → Connection
new owner self is_open now =
    let challenge : ℕ = elim owner [ server ↦ now % 2 ^ 64 | client ↦ 0 ] in
    record {
      self = self;
      owner = owner;
      id = 0;
      is_open = is_open;
      messages_out = [];
      temporary_in = new_message MsgType.server_accept;
      handshake_out = challenge;
      handshake_in = 0;
      handshake_check = elim owner [ server ↦ scramble challenge | client ↦ 0 ];
      writes = [];
      reads = [];
      messages_in = [];
    }

-- m_socket.close()
abbrev pub close : Connection → Connection
close c = record c { is_open = false }

abbrev async_write : Connection → Buffer → List ℕ → Connection
async_write c what bytes = record c {
  writes = c.writes ++ record { what = what; left = bytes } ∷ [];
}

abbrev async_read : Connection → Buffer → ℕ → Connection
async_read c what count = record c { reads = c.reads ++ record { what = what; count = count } ∷ [] }

-- The eight bytes of a `message_header`: the id and the size.
unfoldable pub header_bytes : Message → List ℕ
header_bytes msg = to_bytes 4 (code_of msg.id) ++ to_bytes 4 msg.size

unfoldable pub write_header : Connection → Option Connection
write_header c = do msg ← front c.messages_out; some (async_write c header (header_bytes msg))

unfoldable pub write_body : Connection → Option Connection
write_body c = do msg ← front c.messages_out; some (async_write c body msg.body)

-- connection::Send, the task that it posts
unfoldable pub send : Connection → Message → Option Connection
send c msg =
    let writing = not (empty c.messages_out) in
    let c' = record c { messages_out = push_back c.messages_out msg } in
    if writing then some c' else write_header c'

-- The message at the front has been written: it leaves the queue, and the next one follows.
unfoldable pub next_message : Connection → Option Connection
next_message c = do
  (_, rest) ← pop_front c.messages_out
  let c' = record c { messages_out = rest }
  if empty rest then some c' else write_header c'

-- The handler of WriteHeader.
unfoldable pub on_header_written : Bool → Connection → Option Connection
on_header_written false c = some (close c)
on_header_written true c = do
  msg ← front c.messages_out
  if ltb 0 (length msg.body) then write_body c else next_message c

-- The handler of WriteBody.
unfoldable pub on_body_written : Bool → Connection → Option Connection
on_body_written false c = some (close c)
on_body_written true c = next_message c

unfoldable pub read_header : Connection → Connection
read_header c = async_read c header 8

unfoldable pub read_body : Connection → Connection
read_body c = async_read c body (length c.temporary_in.body)

-- WriteValidation, and its handler
unfoldable pub write_validation : Connection → Connection
write_validation c = async_write c validation (to_bytes 8 c.handshake_out)

unfoldable pub on_validation_written : Bool → Connection → Option Connection
on_validation_written false c = some (close c)
on_validation_written true c = some (elim c.owner [ client ↦ read_header c | server ↦ c ])

-- AddToIncomingMessageQueue
unfoldable pub add_to_incoming : Connection → Connection
add_to_incoming c =
    let remote : Option ℕ = elim c.owner [ server ↦ some c.self | client ↦ none ] in
    read_header (record c {
      messages_in = push_back c.messages_in (record { remote = remote; msg = c.temporary_in });
    })

-- std::vector::resize of a vector of bytes
unfoldable pub resize : ℕ → List ℕ → List ℕ
resize zero bytes = []
resize (suc n) [] = 0 ∷ resize n []
resize (suc n) (b ∷ bytes) = b ∷ resize n bytes

-- The handler of ReadHeader, for the eight bytes read.
unfoldable pub on_header_read : Bool → List ℕ → Connection → Connection
on_header_read false bytes c = close c
on_header_read true bytes c =
    let (id, size) = split_at 4 bytes in
    let n = of_bytes size in
    let c' = record c {
      temporary_in = record c.temporary_in { id = of_code (of_bytes id); size = n };
    } in
    let resized = record c' {
      temporary_in = record c'.temporary_in { body = resize n c'.temporary_in.body };
    } in
    if ltb 0 n then read_body resized else add_to_incoming c'

-- The handler of ReadBody.
unfoldable pub on_body_read : Bool → List ℕ → Connection → Connection
on_body_read false bytes c = close c
on_body_read true bytes c =
    add_to_incoming (record c { temporary_in = record c.temporary_in { body = bytes } })

unfoldable pub read_validation : Connection → Connection
read_validation c = async_read c validation 8

-- What the handler of ReadValidation does with the value read. OnClientValidated does nothing.
unfoldable pub validate : Owner → Connection → Connection
validate server c = if c.handshake_in == c.handshake_check then read_header c else close c
validate client c = write_validation (record c { handshake_out = scramble c.handshake_in })

-- The handler of ReadValidation.
unfoldable pub on_validation_read : Bool → List ℕ → Connection → Connection
unfolding validate
on_validation_read false bytes c = close c
on_validation_read true bytes c = validate c.owner (record c { handshake_in = of_bytes bytes })

-- ConnectToClient, of a connection that a server owns
unfoldable pub connect_to_client : Connection → ℕ → Connection
connect_to_client c uid = elim c.owner [
  | server ↦ if c.is_open then read_validation (write_validation (record c { id = uid })) else c
  | client ↦ c
]

-- ConnectToServer: the handler of its async_connect
unfoldable pub on_connected : Bool → Connection → Connection
on_connected false c = c
on_connected true c = read_validation c

-- Disconnect: the socket is closed in a task of its own.
unfoldable pub disconnect : Connection → Connection
disconnect c = if c.is_open then close c else c

-- The handlers by the buffer that their operation was about.
unfoldable pub on_written : Buffer → Bool → Connection → Option Connection
on_written header ok c = on_header_written ok c
on_written body ok c = on_body_written ok c
on_written validation ok c = on_validation_written ok c

unfoldable pub on_read : Buffer → Bool → List ℕ → Connection → Connection
on_read header ok bytes c = on_header_read ok bytes c
on_read body ok bytes c = on_body_read ok bytes c
on_read validation ok bytes c = on_validation_read ok bytes c
