-- ===== src/Server/Life.antt =====
-- server_interface of net_server.h: Start and Stop, with the asio context and its thread. `none` is
-- the end of the process.
pub mod Listening
use servy.Prelude.{
  ◌>>=◌, ℕ, zero, suc, Bool, true, false, List, [], ◌∷◌, Option, none, some, if◌then◌else◌, not,
  ◌&&◌,
}
use servy.Server.{Server}
use servy.Server.Accept.{on_accept}

-- What an accept operation is completed with.
pub data Attempt : Type 0 where
  -- an error code
  fails : Attempt
  -- a client, whose connection object is at `client`; the socket is open or not
  comes : (client : ℕ) (is_open : Bool) → Attempt
  -- a client that is gone when the handler asks for its `remote_endpoint`, which throws
  leaves : Attempt

pub record Host : Type 0 where
  pub server : Server
  -- the accept operations that wait for a client
  pub accepts : ℕ
  -- the context has been stopped
  pub stopped : Bool
  -- m_threadContext is joinable
  pub thread : Bool

-- The constructor
abbrev pub new : Server → Host
new s = record { server = s; accepts = 0; stopped = false; thread = false }

-- WaitForClientConnection
abbrev pub wait_for_client : Host → Host
wait_for_client h = record h { accepts = suc h.accepts }

-- Start: `launches` is false where the thread cannot be made, which is caught. To assign to a
-- joinable thread ends the process.
unfoldable pub start : (launches : Bool) → Host → Option (Host × Bool)
start false h = some (wait_for_client h, false)
start true h = if h.thread then none else some (record (wait_for_client h) { thread = true }, true)

-- Stop, also in the destructor
unfoldable pub stop : Host → Host
stop h = record h { stopped = true; thread = false }

-- The handler of an accept operation, which waits for the next client at its end. Nothing catches
-- what it throws.
unfoldable pub on_attempt : Attempt → Host → Option Host
on_attempt fails h = some (wait_for_client (record h { server = on_accept false 0 false h.server }))
on_attempt (comes client is_open) h =
    some (wait_for_client (record h { server = on_accept true client is_open h.server }))
on_attempt leaves h = none

-- The context's thread completes an accept operation, if one waits.
abbrev pub complete_accept : ℕ → Attempt → Host → Option Host
complete_accept zero t h = some h
complete_accept (suc n) t h = on_attempt t (record h { accepts = n })

-- The context with an attempt: it does nothing without its thread, or once it has been stopped.
unfoldable pub run_accept : Attempt → Host → Option Host
run_accept t h = if h.thread && not h.stopped then complete_accept h.accepts t h else some h

unfoldable pub serve : List Attempt → Host → Option Host
serve [] h = some h
serve (t ∷ ts) h = do h' ← run_accept t h; serve ts h'
