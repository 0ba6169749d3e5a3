-- ===== src/Connection/Link/Early.antt =====
-- A client that sends before its handshake is over (net_connection.h).
use servy.Prelude.{ℕ, true, List, [], ◌∷◌}
use servy.Message.{Message}
use servy.Connection.{Connection, server, client, header, new, connect_to_client, on_connected}
use servy.Connection.Link.{Link}

-- A server's connection and a client that has connected to it, before anything is written.
abbrev pub connected : ℕ → ℕ → ℕ → ℕ → Link
connected now uid a b = record {
  a = connect_to_client (new server a true now) uid;
  b = on_connected true (new client b true 0);
  from_a = [];
  from_b = [];
  sent_a = [];
  sent_b = [];
}

-- The header of the client's message on its way.
abbrev pouring : Link → Connection → Message → List ℕ → List ℕ → Link
pouring l c msg left wire = record l {
  b = record c { messages_out = msg ∷ []; writes = record { what = header; left = left } ∷ [] };
  from_b = wire;
  sent_b = msg ∷ [];
}
