-- ===== src/Tests/Echoes.antt =====
-- A ping that a server sends back (SimpleServer.cpp, net_connection.h).
use servy.Connection
use servy.Connection.{Connection, Owner}
use servy.Connection.Writing.{Writing}
use servy.Tests.Links.{ready, note}
use servy.Tests.Traffic.{server}

-- A server's connection that has read a text.
abbrev spoken : Connection
spoken = record (ready Owner.server) { temporary_in = note }
