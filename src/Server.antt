-- ===== src/Server.antt =====
-- CustomServer of SimpleServer.cpp, with the clients that server_interface of net_server.h keeps.
-- A `shared_ptr` to a connection is an address or null; `conns` is the store of the objects. What
-- `connection::Send` is given is appended to `outbox`. Console output is not modelled. `none` stands
-- for undefined behaviour or an exception that ends the process.
pub mod Broadcast
pub mod Requests
pub mod Replies
pub mod Accept
pub mod Life
pub mod Clients
pub mod Update
pub mod Incoming
pub mod Files
pub mod System
pub mod Serialized
pub mod Posts
pub mod Echo
use servy.Prelude.{
  ◌>>=◌, ℕ, ◌≡◌, Bool, true, false, not, ◌&&◌, ◌||◌, List, [], ◌∷◌, ◌++◌, Option, none, some, ◌==◌,
  if◌then◌else◌,
}
use servy.Prelude.Text.{Text, codes}
use servy.Run.{Run}
use servy.Scheduler.{Scheduler, send_run, move_run_up, move_run_down, remove_run}
use servy.Message.{Message, MsgType, push, to_bytes}
use servy.Message.Strings.{pop_str, push_reply}
use servy.Archive.{Archive, fix_version}
use servy.Status.{print_qstatus}

pub record Connection : Type 0 where
  pub id : ℕ
  pub is_open : Bool

pub record Server : Type 0 where
  pub scheduler : Scheduler
  pub conns : ℕ → Connection
  pub connections : List (Option ℕ)
  pub outbox : List (ℕ × Message)
  pub id_counter : ℕ

-- connection::Send through a pointer that is not null
unfoldable pub send : Server → ℕ → Message → Server
send s client msg = record s { outbox = s.outbox ++ (client, msg) ∷ [] }

-- What the loop of MessageAllClients leaves of the container, what it sends, and its flag
-- `bInvalidClientExists`.
pub record Visit : Type 0 where
  pub slots : List (Option ℕ)
  pub sent : List (ℕ × Message)
  pub invalid : Bool

-- `client == pIgnoreClient`
unfoldable pub is_client : Option ℕ → ℕ → Bool
is_client none c = false
is_client (some i) c = i == c

-- A client that is closed is reported by `OnClientDisconnect`, which reads its id, and reset.
unfoldable pub visit_one : (ℕ → Connection) → Message → Option ℕ → Option ℕ → Option Visit
visit_one conns msg ignore none = none
visit_one conns msg ignore (some client) =
    if (conns client).is_open
    then some (record {
      slots = some client ∷ [];
      sent = if is_client ignore client then [] else (client, msg) ∷ [];
      invalid = false;
    })
    else some (record { slots = none ∷ []; sent = []; invalid = true })

unfoldable pub visit : (ℕ → Connection) → Message → Option ℕ → List (Option ℕ) → Option Visit
visit conns msg ignore [] = some (record { slots = []; sent = []; invalid = false })
visit conns msg ignore (client ∷ rest) = do
  first ← visit_one conns msg ignore client
  others ← visit conns msg ignore rest
  some (record {
    slots = first.slots ++ others.slots;
    sent = first.sent ++ others.sent;
    invalid = first.invalid || others.invalid;
  })

-- std::remove of nullptr, and erase
unfoldable pub remove_null : List (Option ℕ) → List (Option ℕ)
remove_null [] = []
remove_null (none ∷ cs) = remove_null cs
remove_null (some c ∷ cs) = some c ∷ remove_null cs

-- server_interface::MessageAllClients
unfoldable pub message_all_clients : Server → Message → Option ℕ → Option Server
message_all_clients s msg ignore = do
  v ← visit s.conns msg ignore s.connections
  some (record s {
    connections = if v.invalid then remove_null v.slots else v.slots;
    outbox = s.outbox ++ v.sent;
  })

abbrev pub with_scheduler : Server → Option Scheduler → Option Server
with_scheduler s none = none
with_scheduler s (some t) = some (record s { scheduler = t })

-- The text of a message, with the version of its archive replaced.
unfoldable pub received_text : Message → Option Text
received_text msg = do (ss, _) ← pop_str msg; some (fix_version ss)

-- A run read from the text of a message.
unfoldable pub received_run : Archive → Message → Option Run
unfolding received_text
received_run a msg = do ss ← received_text msg; a.load_run ss

-- The replies of the SendText and the Qstatus cases.
unfoldable pub reply : Server → ℕ → Text → Option Server
reply s client outstr = do
  new_msg ← push_reply (package.servy.Message.new MsgType.send_text) outstr
  some (send s client new_msg)

-- The switch of CustomServer::OnMessage. The cases that it does not name do nothing.
unfoldable pub handle : Archive → Server → ℕ → Message → MsgType → Option Server
handle a s client msg MsgType.server_ping = some (send s client msg)
handle a s client msg MsgType.message_all =
    message_all_clients s
      (push (package.servy.Message.new MsgType.server_message) (to_bytes 4 (s.conns client).id))
      (some client)
handle a s client msg MsgType.send_run = do
  arun ← received_run a msg
  with_scheduler s (some (send_run s.scheduler arun))
handle a s client msg MsgType.move_run_up = do
  arun ← received_run a msg
  with_scheduler s (some (move_run_up s.scheduler arun))
handle a s client msg MsgType.move_run_down = do
  arun ← received_run a msg
  with_scheduler s (move_run_down s.scheduler arun)
handle a s client msg MsgType.remove_run = do
  arun ← received_run a msg
  with_scheduler s (some (remove_run s.scheduler arun))
handle a s client msg MsgType.send_machine = do
  ss ← received_text msg
  amachine ← a.load_machine ss
  some s
handle a s client msg MsgType.send_text = do
  ss ← received_text msg
  astr ← a.load_astr ss
  reply s client (codes "[APPROVED]")
handle a s client msg MsgType.qstatus = reply s client (print_qstatus s.scheduler)
handle a s client msg _ = some s

-- CustomServer::OnMessage
unfoldable pub on_message : Archive → Server → ℕ → Message → Option Server
unfolding handle
on_message a s client msg = handle a s client msg msg.id
