-- ===== src/Lib.antt =====
-- servy: a run server for a small cluster, and its client.
--
-- The server (SimpleServer.cpp) keeps a queue of runs (vq.h, run.h) and a cluster of machines
-- (cluster.h, machine.h). A thread of its own starts the run at the front of the queue whenever the
-- cluster has the cores that the run asks for, reserves them, and executes the run in a detached
-- thread, which returns the cores at its end. Clients (client.cpp) send messages over the transport
-- of net_message.h, net_connection.h, net_server.h and net_tsqueue.h: they add runs, move and remove
-- waiting runs, and ask for the status.
--
-- The files, and what each models (paths from the repository's root):
--   Prelude, Prelude/*: the names shared by all; integers, texts as lists of bytes, decimal texts.
--   Machine, Machine/Accounting: machine.h, the class `machine` and its books.
--   Cluster: cluster.h, the loops of `can_alloc`, `alloc` and `free`. Its children: what `can_alloc`
--     decides (Fits), the loops seen from one machine (Reserve), the demand of a request (Demand),
--     `free` after `alloc` (RoundTrip), what stays as it is (Shape), and requests that are granted
--     without being reserved (Overcommit).
--   VQueue: vq.h, generic in the items and their `operator==`. Its children: `std::find` (Search), the
--     moves (Moves), removal (Items), predicates on all items (Members).
--   Run, Run/Identity, Run/Order: run.h, the extended id, `operator==` and the other comparisons, the
--     shell commands of `execute`.
--   Message, Message/*: net_message.h, `push_str` of client.cpp, `pop_str` and the replies of
--     SimpleServer.cpp.
--   Scheduler: the members of CustomServer that its mutex guards, `handle_runs`, `execute_run` and the
--     critical sections of `OnMessage` as functions on the state, and their interleavings as a step
--     relation. Its children: what each section changes (Sections), the cluster's books against the
--     runs at work (Books), safety (Safety), progress (Progress), the lists that are shown (History).
--   Status: the status text (`print_qstatus`) and the texts that it is made of.
--   Archive, Archive/Version: what the messages carry as texts, and the replacement of the archive's
--     version. Archive/Serial, Archive/Serial/RoundTrip: the `serialize` members of machine.h, run.h and
--     net_common.h over Boost's archives, which are an interface with laws. Archive/Saved: a text
--     in a file of its own.
--   MachineList, MachineList/RoundTrip, MachineList/Bounds: the texts of machine lists
--     (`get_machines`, `fget_machines`), with what a stringstream reads.
--   TsQueue, TsQueue/Wait: net_tsqueue.h, the operations on the deque, and `wait` beside a thread that
--     adds items as a step relation.
--   Connection: net_connection.h, the handlers as functions on a connection with its pending
--     operations. Its children: the bytes of messages (Wire), an established direction from a sender to
--     a receiver as a step relation (Stream), the sender's part (Writing, Sending), the receiver's
--     (Arrival, Reading, Receiving), the two together (Delivery, Outcome), how they come to an end
--     (Flush, Drain), the handshake with what disturbs it (Handshake), and both directions on one
--     socket (Link): what a direction leaves of the other (Link/Halves), an end
--     past its handshake (Link/Past), what arrives (Link/Both), a client that sends before that
--     (Link/Early), and
--     what an end adds to the incoming queue (Link/Turns).
--   Server: `OnMessage` and `MessageAllClients` (net_server.h). Its children: broadcasts, the requests
--     of clients from end to end, the replies, the handler of `async_accept` (Accept), the clients that
--     it accepts and `MessageClient` (Clients), Start and Stop (Life) with what the context's thread
--     accepts in between (Life/Listening), the loop of `Update` (Update) and what it does with a
--     series of requests (Incoming, Serialized), a ping that is sent back with a body that is not its
--     own (Echo), the file between a message and the archive (Files), and
--     the whole server as a step relation with its abstraction to the scheduler (System,
--     System/Refines).
--   Network: the server with a link for each of its clients, whose connections share its queue, as a
--     step relation. Its children: the order in which it handles what they send (InTurn), the order
--     in which they read what it posts (Replies, with Server/Posts), and its abstraction to the server
--     and the scheduler (Refines).
--   Client: the messages that CustomClient of client.cpp sends. Its children: main's arguments and
--     environment (Arguments), their spelling (Spelling), what they assign (Assigned) and which of them
--     wins (Precedence); the user's picks and the messages that are shown (Session, Session/Answers), and
--     the thread that reads the picks beside the loop of main as a step relation (Session/Picking,
--     Session/Picking/Entered); the loop of main round by round (Loop) with what it shows (Loop/Talk),
--     what it sends (Loop/Kinds, Loop/Once), when it goes through (Loop/Defined) and how it ends
--     (Loop/Ends); client_interface of net_client.h (Life) with what Disconnect leaves (Life/Ending,
--     Life/Closing).
--   Tests, Tests/*: the theorems at concrete inputs, and runs of the definitions.
--
-- How the parts meet: Connection delivers messages to a queue; Server.Update takes them from such a
-- queue and hands them to `on_message`; that reads the texts of Message.Strings through Archive and
-- calls the critical sections of Scheduler, which use VQueue with the equality of Run, and Cluster.
-- What `on_message` posts is in the outbox of Server, as (client, message); Client.Session reads it.
-- Server.System has all threads of the server beside each other; its state behind the mutex is one of
-- Scheduler. Network puts the links of Connection beside it. Client.Loop uses Client.Session for the picks and for what is shown.
--
-- An `int` is an integer: on well-formed machines no count leaves the range from 0 to the machine's
-- size. Lengths and ids keep their width (`% 2 ^ 16`, `% 2 ^ 32`). `none` is undefined behaviour or an
-- exception that ends the process. Recursion is structural, except where decimal digits are written:
-- its fuel is the number plus one, which is enough since each round divides by ten. The number of
-- messages that `Update` is allowed is a parameter.
--
-- Not modelled: the console, the shell, the operating system's threads and sockets (which step comes
-- next is free; asio moves single bytes and completes or fails the pending operations in any order,
-- and what a failed read leaves in its buffer is not looked at), spurious wake-ups, the format of the
-- Boost archives (an interface: what is saved comes back in the order of the saves, a client's archive
-- begins with version 17, and one of version 16 can be read), the address of a new connection (the
-- allocator's choice, a parameter), the binding of the server's port. Server and Server.System let
-- the file behind OnMessage give each text back; Server.Files has the file. A greeting that is
-- posted during a handshake (Handshake says what becomes of it) is in Network sent after it. The
-- container of the server's clients is changed by two threads without a mutex in the source; here
-- each handler is one step.
pub mod Prelude
pub mod Machine
pub mod Cluster
pub mod VQueue
pub mod Run
pub mod Message
pub mod Scheduler
pub mod Tests
pub mod Status
pub mod Archive
pub mod Server
pub mod Network
pub mod Client
pub mod MachineList
pub mod TsQueue
pub mod Connection
