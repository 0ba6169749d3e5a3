-- ===== src/Server/Accept.antt =====
-- The accept handler of net_server.h and `MessageClient`. The address of a new connection is the
-- allocator's choice; what the connection does with `ConnectToClient` beyond its id is the subject
-- of Connection.
use servy.Prelude.{
  ℕ, ◌+◌, ◌%◌, ◌^◌, Bool, true, false, [], ◌∷◌, ◌++◌, Option, none, some, ◌==◌, if◌then◌else◌,
}
use servy.Message.{Message, MsgType}
use servy.Server.{Server, Connection, send, remove_null}

-- The store with a new value for one object.
unfoldable pub update : (ℕ → Connection) → ℕ → Connection → ℕ → Connection
update conns client c i = if i == client then c else conns i

abbrev pub accepted : Message
accepted = package.servy.Message.new MsgType.server_accept

-- CustomServer::OnClientConnect
unfoldable pub on_client_connect : Server → ℕ → Server × Bool
on_client_connect s client = (send s client accepted, true)

-- The handler of WaitForClientConnection, for a connection whose object is at `client` and whose
-- socket is open or not. It waits for the next one in any case.
unfoldable pub on_accept : Bool → ℕ → Bool → Server → Server
unfolding on_client_connect update
on_accept false client is_open s = s
on_accept true client is_open s =
    let newconn : Connection = record { id = 0; is_open = is_open } in
    let (s', allowed) =
      on_client_connect (record s { conns = update s.conns client newconn }) client in
    let uid = s'.id_counter in
    let numbered : Connection = record newconn { id = if is_open then uid else 0 } in
    if allowed
    then record s' {
      connections = s'.connections ++ some client ∷ [];
      conns = update s'.conns client numbered;
      id_counter = (uid + 1) % 2 ^ 32;
    }
    else s'

-- The socket of a client is closed: by one of the handlers of its connection.
unfoldable pub close_client : Server → ℕ → Server
unfolding update
close_client s client = record s {
  conns = update s.conns client (record (s.conns client) { is_open = false });
}

-- server_interface::MessageClient: `client` is reset before the container is searched for it, so
-- that what is removed are the null pointers. A null client is read by `OnClientDisconnect`: `none`.
unfoldable pub message_client : Server → Option ℕ → Message → Option Server
message_client s none msg = none
message_client s (some client) msg =
    if (s.conns client).is_open
    then some (send s client msg)
    else some (record s { connections = remove_null s.connections })
