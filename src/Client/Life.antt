-- ===== src/Client/Life.antt =====
-- client_interface of net_client.h: the connection that a client owns, with the asio context and its
-- thread. The context runs what has been posted in the order of posting. `none` is undefined
-- behaviour or the end of the process.
pub mod Ending
pub mod Closing
use servy.Prelude.{
  ◌>>=◌, ℕ, zero, suc, ◌≡◌, refl, Bool, true, false, List, [], ◌∷◌, ◌++◌, Option, none, some,
  if◌then◌else◌, not, ◌&&◌,
}
use servy.Message.{Message}
use servy.Connection
use servy.Connection.{Connection, client, close}

pub data Task : Type 0 where
  -- m_socket.close(), posted by connection::Disconnect
  closes : Task
  -- the task of connection::Send
  sends : (msg : Message) → Task

pub record Interface : Type 0 where
  -- m_connection
  pub connection : Option Connection
  -- m_context: what has been posted and has not run, and whether it has been stopped
  pub tasks : List Task
  pub stopped : Bool
  -- thrContext is joinable
  pub thread : Bool
  -- the connections that `release` has given up without destroying them
  pub released : List Connection

abbrev pub new : Interface
new = record { connection = none; tasks = []; stopped = false; thread = false; released = [] }

-- IsConnected
unfoldable pub is_connected : Interface → Bool
is_connected c = elim c.connection [ some k ↦ k.is_open | none ↦ false ]

-- Connect: `resolves` is false where the resolver throws; `opens` tells whether ConnectToServer has
-- opened the socket by the time that it returns. To assign to a joinable thread ends the process.
unfoldable pub connect : (resolves opens : Bool) → Interface → Option (Interface × Bool)
connect false opens c = some (c, false)
connect true opens c =
    if c.thread
    then none
    else some (
      record c { connection = some (package.servy.Connection.new client 0 opens 0); thread = true },
      true,
    )

-- Send
unfoldable pub send : Interface → Message → Interface
unfolding is_connected
send c msg = if is_connected c then record c { tasks = c.tasks ++ sends msg ∷ [] } else c

-- One task on the connection; without a connection it works on a dangling pointer.
unfoldable pub perform : Task → Option Connection → Option (Option Connection)
perform t none = none
perform closes (some k) = some (some (close k))
perform (sends msg) (some k) = do k' ← package.servy.Connection.send k msg; some (some k')

-- The context's thread runs a task, if it is there, has not been stopped and has a task.
abbrev pub run_first : List Task → Interface → Option Interface
run_first [] c = some c
run_first (t ∷ ts) c = do k ← perform t c.connection; some (record c { connection = k; tasks = ts })

unfoldable pub run_task : Interface → Option Interface
run_task c = if c.thread && not c.stopped then run_first c.tasks c else some c

unfoldable pub run_tasks : ℕ → Interface → Option Interface
run_tasks zero c = some c
run_tasks (suc n) c = do c' ← run_task c; run_tasks n c'

-- Disconnect, up to `m_context.stop()`: connection::Disconnect posts the closing of the socket.
unfoldable pub post_close : Interface → Interface
unfolding is_connected
post_close c = if is_connected c then record c { tasks = c.tasks ++ closes ∷ [] } else c

-- From `m_context.stop()` on.
unfoldable pub finish : Interface → Interface
finish c = record c {
  connection = none;
  stopped = true;
  thread = false;
  released = c.released ++ elim c.connection [ some k ↦ k ∷ [] | none ↦ [] ];
}

-- Disconnect, the context's thread running `n` tasks before it is stopped.
unfoldable pub disconnect : ℕ → Interface → Option Interface
unfolding post_close finish
disconnect n c = do c' ← run_tasks n (post_close c); some (finish c')
