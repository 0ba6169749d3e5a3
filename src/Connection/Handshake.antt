-- ===== src/Connection/Handshake.antt =====
-- The handshake of net_connection.h: the server's challenge, the client's answer, and what becomes of
-- a peer that gives another answer or writes before its turn.
use servy.Prelude.{
  ℕ, ◌≡◌, ◌≢◌, ◌<◌, ◌%◌, ◌^◌, refl, ap, ◌∙◌, true, false, List, [], ◌∷◌, ◌++◌, Option, some, length,
  arith, ◌==◌,
}
use servy.Message.{Message, to_bytes, of_bytes}
use servy.TsQueue.{front}
use servy.Connection.{
  Connection, server, client, Write, header, validation, scramble, new, send, write_header,
  header_bytes, write_validation, read_validation, on_validation_written, on_validation_read,
  validate, connect_to_client, on_connected, read_header, on_written, on_read, close,
}
use servy.Connection.Wire.{of_bytes-to_bytes}
use servy.Connection.Stream.{Stream}
use servy.Connection.Delivery.{IsEstablished}
use servy.Prelude.{◌>>=◌}

scramble-lt : (n : ℕ) → scramble n < 2 ^ 64
unfolding scramble
scramble-lt n = omega arith

-- The value that a party reads is the one that the other has written.
challenge_read : (n : ℕ) → of_bytes (to_bytes 8 (n % 2 ^ 64)) ≡ n % 2 ^ 64
challenge_read n = of_bytes-to_bytes 8 (n % 2 ^ 64) (omega arith)

answer_read : (n : ℕ) → of_bytes (to_bytes 8 (scramble n)) ≡ scramble n
answer_read n = of_bytes-to_bytes 8 (scramble n) (scramble-lt n)

validate-server :
    (c : Connection)
    → ((c.handshake_in ≡ c.handshake_check → validate server c ≡ read_header c)
        × (c.handshake_in ≢ c.handshake_check → validate server c ≡ close c))
unfolding validate
validate-server c = (λ e. ground arith, λ e. ground arith)

-- A server's connection that awaits the answer keeps the peer exactly if the bytes read stand for
-- the value that it has computed; it then awaits a header, and otherwise its socket is closed.
pub server_decides :
    (c : Connection) (bytes : List ℕ)
    → c.owner ≡ server
    → ((of_bytes bytes ≡ c.handshake_check
          → on_validation_read true bytes c
            ≡ read_header (record c { handshake_in = of_bytes bytes }))
        × (of_bytes bytes ≢ c.handshake_check
            → on_validation_read true bytes c ≡ close (record c { handshake_in = of_bytes bytes })))
unfolding on_validation_read
server_decides c bytes e =
    let c' = record c { handshake_in = of_bytes bytes } in
    let (accepts, refuses) = validate-server c' in
    let as_server : validate c.owner c' ≡ validate server c' = ap (λ o. validate o c') e in
    (λ h. as_server ∙ accepts h, λ h. as_server ∙ refuses h)

-- The bytes of the pending write, all of which the other end reads.
unfoldable pub written : List Write → List ℕ
written [] = []
written (w ∷ ws) = w.left

-- A handshake that nothing disturbs, handler by handler: the server at address `a` accepts the
-- connection as `uid`, the client at address `b` has connected, each write is done and each read
-- takes the bytes that the other end has written.
unfoldable pub shake_hands : ℕ → ℕ → ℕ → ℕ → Option (Connection × Connection)
shake_hands now uid a b = do
  let s₀ = connect_to_client (new server a true now) uid
  let c₀ = on_connected true (new client b true 0)
  s₁ ← on_written validation true (record s₀ { writes = [] })
  let c₁ = on_read validation true (written s₀.writes) (record c₀ { reads = [] })
  c₂ ← on_written validation true (record c₁ { writes = [] })
  let s₂ = on_read validation true (written c₁.writes) (record s₁ { reads = [] })
  some (s₂, c₂)

abbrev direction : Connection → Connection → Stream
direction sender receiver = record { sender = sender; receiver = receiver; wire = []; sent = [] }

-- The two ends after the handshake.
abbrev accepted : ℕ → ℕ → ℕ → Connection
accepted now uid a =
    let c = new server a true now in
    read_header (record c { id = uid; handshake_in = c.handshake_check })

abbrev answered : ℕ → ℕ → Connection
answered now b = read_header (record (new client b true 0) {
  handshake_in = now % 2 ^ 64;
  handshake_out = scramble (now % 2 ^ 64);
})

equal_self : (n : ℕ) → (n == n) ≡ true
equal_self n = ground arith

shake_hands_lem :
    (now uid a b : ℕ) → shake_hands now uid a b ≡ some (accepted now uid a, answered now b)
unfolding shake_hands on_written on_read new connect_to_client on_connected write_validation
    read_validation on_validation_written on_validation_read validate written
shake_hands_lem now uid a b =
    rw (challenge_read now, answer_read (now % 2 ^ 64), equal_self (scramble (now % 2 ^ 64)))

-- A client that answers the challenge is accepted, whatever the clock says: both sockets stay open,
-- and messages can be sent in both directions.
pub handshake_establishes :
    (now uid a b : ℕ)
    → (s c : Connection) × (shake_hands now uid a b ≡ some (s, c))
      × (s.is_open ≡ true)
      × (c.is_open ≡ true)
      × (s.id ≡ uid)
      × IsEstablished (direction s c)
      × IsEstablished (direction c s)
unfolding new read_header
handshake_establishes now uid a b = (
  accepted now uid a,
  answered now b,
  shake_hands_lem now uid a b,
  refl,
  refl,
  refl,
  record {
    queue_empty = refl;
    no_write = refl;
    header_awaited = refl;
    no_body = refl;
    none_queued = refl;
    wire_empty = refl;
    none_sent = refl;
  },
  record {
    queue_empty = refl;
    no_write = refl;
    header_awaited = refl;
    no_body = refl;
    none_queued = refl;
    wire_empty = refl;
    none_sent = refl;
  },
)

-- The accept handler starts to write the challenge, and the message that OnClientConnect has posted
-- is sent without waiting for it: two writes are pending on one socket.
pub writes_overlap :
    (now uid a : ℕ) (msg : Message)
    → (c : Connection) × (send (connect_to_client (new server a true now) uid) msg ≡ some c)
      × (length c.writes ≡ 2)
unfolding send write_header front connect_to_client new write_validation read_validation
writes_overlap now uid a msg = (_, refl, refl)

-- A client that sends before it has answered has the header of its message taken for the answer: if
-- that is not the right value by chance, the server closes the connection.
pub early_message_rejected :
    (s c : Connection) (msg : Message)
    → s.owner ≡ server
    → c.messages_out ≡ []
    → c.writes ≡ []
    → of_bytes (header_bytes msg) ≢ s.handshake_check
    → (c' : Connection) × (send c msg ≡ some c')
      × ((on_validation_read true (written c'.writes) s).is_open ≡ false)
unfolding send write_header front written
early_message_rejected s c msg o e w h = (
  record c {
    messages_out = msg ∷ [];
    writes = c.writes ++ record { what = header; left = header_bytes msg } ∷ [];
  },
  rw e,
  rw w (ap (λ (d : Connection). d.is_open) ((server_decides s (header_bytes msg) o).1 h)),
)
