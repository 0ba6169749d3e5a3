-- ===== src/Tests/Closing.antt =====
-- A client that disconnects (net_client.h).
use servy.Prelude.{◌≡◌, refl, ℕ, true, false, [], ◌∷◌, some, none}
use servy.Message.{Message, MsgType}
use servy.TsQueue.{front}
use servy.Connection
use servy.Connection.{Connection, Buffer, client, close, write_header, header_bytes}
use servy.Client.Life.{
  closes, sends, Interface, is_connected, connect, send, run_tasks, disconnect, post_close, finish,
  perform,
}
use servy.Client.Life.Ending.{disconnected_for_good, reconnect_idle}
use servy.Client.Life.Closing.{disconnect_cut, disconnect_late, perform_all}

abbrev peer : Connection
peer = record {
  self = 0;
  owner = client;
  id = 0;
  is_open = true;
  messages_out = [];
  temporary_in = package.servy.Message.new MsgType.server_accept;
  handshake_out = 0;
  handshake_in = 0;
  handshake_check = 0;
  writes = [];
  reads = [];
  messages_in = [];
}

abbrev question : Message
question = package.servy.Message.new MsgType.qstatus

-- A status request has been posted and has not run.
abbrev asking : Interface
asking = record {
  connection = some peer;
  tasks = sends question ∷ [];
  stopped = false;
  thread = true;
  released = [];
}

abbrev left_open : Interface
left_open = record {
  connection = none;
  tasks = sends question ∷ closes ∷ [];
  stopped = true;
  thread = false;
  released = peer ∷ [];
}

left_open_lem : disconnect 0 asking ≡ some left_open
unfolding disconnect run_tasks post_close is_connected finish
left_open_lem = refl

reconnect_idle_example :
    (e : Interface) × (connect true true left_open ≡ some (e, true))
    × (is_connected e ≡ true)
    × ((msg : Message) (k : ℕ) → run_tasks k (send e msg) ≡ some (send e msg))
reconnect_idle_example = reconnect_idle 0 asking left_open true left_open_lem

disconnected_for_good_example :
    (is_connected left_open ≡ false)
    × ((msg : Message) → send left_open msg ≡ left_open)
    × ((k : ℕ) → run_tasks k left_open ≡ some left_open)
    × ((m : ℕ) → disconnect m left_open ≡ some left_open)
disconnected_for_good_example = disconnected_for_good 0 asking left_open left_open_lem

-- A status request has been sent, and another one waits behind it.
abbrev busy : Interface
busy = record asking { tasks = sends question ∷ sends question ∷ [] }

abbrev writing : Connection
writing = record peer {
  messages_out = question ∷ [];
  writes = record { what = Buffer.header; left = header_bytes question } ∷ [];
}

question_sent : perform_all (sends question ∷ []) (some peer) ≡ some (some writing)
unfolding perform_all perform package.servy.Connection.send write_header front
question_sent = refl

disconnect_cut_example :
    (d : Interface) × (disconnect 1 busy ≡ some d)
    × (d.released ≡ writing ∷ [])
    × (writing.is_open ≡ true)
    × (d.tasks ≡ sends question ∷ closes ∷ [])
    × ((n : ℕ) → run_tasks n d ≡ some d)
disconnect_cut_example =
    disconnect_cut busy peer writing (question ∷ []) (question ∷ []) refl refl refl refl refl
      question_sent

-- The request that was posted is sent, and then the socket is closed.
disconnect_late_example :
    (d : Interface) × (disconnect 2 asking ≡ some d)
    × (d.released ≡ close writing ∷ [])
    × (d.tasks ≡ [])
disconnect_late_example = disconnect_late asking peer writing refl refl refl refl question_sent
