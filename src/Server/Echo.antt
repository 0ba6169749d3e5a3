-- ===== src/Server/Echo.antt =====
-- A ping without a body, behind a message that has one (net_connection.h, SimpleServer.cpp).
use servy.Message.{Message, MsgType, new}
use servy.Archive.{Archive}
use servy.Connection.{Connection, Read}
use servy.Connection
use servy.Connection.Writing.{Writing}
use servy.Server.{Server}

abbrev pub ping : Message
ping = new MsgType.server_ping
