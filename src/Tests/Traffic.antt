-- ===== src/Tests/Traffic.antt =====
-- Clients and the server of SimpleServer.cpp exchanging messages.
use servy.Prelude.{
  ◌>>=◌, ℕ, ◌≡◌, refl, true, false, List, [], ◌∷◌, ◌++◌, map, none, some, arith, ◌==◌,
  if◌then◌else◌, length, ◌+◌, ◌<◌, ◌^◌,
}
use servy.Prelude.Text.{Text, codes, str_eq}
use servy.Prelude.Decimal.{show_ℤ, show_ℕ, set_width, fill}
use servy.Run.{xid_of}
use servy.Scheduler.{init}
use servy.Message.{Message, MsgType, push, pop, to_bytes, of_bytes}
use servy.Message.Strings.{no_nul}
use servy.Archive.{Archive, fix_version, replace_first, after_prefix}
use servy.Archive.Version.{ReplacedFirst, replace_first-ReplacedFirst}
use servy.Status.{print_qstatus, queue_str}
use servy.Client
use servy.Server.{Server, is_client, on_message, message_all_clients, with_scheduler}
use servy.Server.Requests.{downs, message_of, asked, IsCarried, requests_arrive}
use servy.Server.Replies.{Replied, status-Replied, text-Replied}
use servy.Server.Broadcast.{broadcast, greeting_heard, select, is_up, addressed}
use servy.Tests.Samples.{cluster, job, second, thor}

-- An archive of version 17 that is read as one of version 16.
abbrev pub header : Text
header = codes "archive 17 "

abbrev pub read_header : Text
read_header = codes "archive 16 "

abbrev pub sample : Archive
sample = record {
  save_run = λ r. header ++ r.xid;
  load_run = λ t. if str_eq t (read_header ++ job.xid) then some job else none;
  save_machine = λ m. header ++ m.name;
  load_machine = λ t. if str_eq t (read_header ++ thor.name) then some thor else none;
  save_astr = λ t. header ++ t;
  load_astr = λ t. some t;
}

-- Clients 1, 2 and 3, of which the second is not connected.
abbrev pub server : Server
server = record {
  scheduler = record (init cluster) { vq = second ∷ job ∷ [] };
  conns = λ c. record { id = 10000 + c; is_open = if c == 2 then false else true };
  connections = some 1 ∷ some 2 ∷ some 3 ∷ [];
  outbox = [];
  id_counter = 10003;
}

pub job-IsCarried : IsCarried (sample.save_run job)
unfolding no_nul xid_of set_width fill show_ℤ show_ℕ
job-IsCarried = record { plain = refl; short = omega arith }

pub job_read : sample.load_run (fix_version (sample.save_run job)) ≡ some job
unfolding fix_version replace_first after_prefix str_eq xid_of set_width fill show_ℤ show_ℕ
job_read = refl

requests_arrive_example :
    (message_of sample downs job >>= on_message sample server 1)
    ≡ with_scheduler server (asked downs server.scheduler job)
requests_arrive_example = requests_arrive sample server 1 downs job job-IsCarried job_read

pub status_plain : no_nul (print_qstatus (init [])) ≡ true
unfolding print_qstatus queue_str no_nul
status_plain = refl

abbrev pub idle_server : Server
idle_server = record server { scheduler = init [] }

pub status_short : length (print_qstatus (init [])) + 1 < 2 ^ 31
unfolding print_qstatus queue_str
status_short = omega arith

status-Replied_example :
    Replied idle_server 1 (print_qstatus (init [])) (on_message sample idle_server 1 Client.qstatus)
status-Replied_example = status-Replied sample idle_server 1 status_plain status_short

text-IsCarried : IsCarried (sample.save_astr (codes "hi"))
unfolding no_nul
text-IsCarried = record { plain = refl; short = omega arith }

text-Replied_example :
    Replied server 1
      (codes "[APPROVED]")
      (Client.send_text sample (codes "hi") >>= on_message sample server 1)
text-Replied_example =
    text-Replied sample server 1 (codes "hi") (fix_version (header ++ codes "hi")) text-IsCarried
      refl

abbrev pub note : Message
note = package.servy.Message.new MsgType.server_message

broadcast_example :
    message_all_clients server note (some 1)
    ≡ some (record server { connections = some 1 ∷ some 3 ∷ []; outbox = (3, note) ∷ [] })
unfolding select is_client
broadcast_example = broadcast server note (some 1) (1 ∷ 2 ∷ 3 ∷ []) refl

greeting_heard_example :
    (msg : Message) × (bytes : List ℕ) × (on_message sample server 1 Client.message_all
      ≡ some (record server {
        connections = map some (select (is_up server.conns msg (some 1)) (1 ∷ 2 ∷ 3 ∷ []));
        outbox =
            map (λ c. (c, msg)) (select (addressed server.conns msg (some 1)) (1 ∷ 2 ∷ 3 ∷ []));
      }))
    × (msg.id ≡ MsgType.server_message)
    × (pop msg 4 ≡ some (bytes, package.servy.Message.new MsgType.server_message))
    × (of_bytes bytes ≡ 10001)
greeting_heard_example = greeting_heard sample server 1 (1 ∷ 2 ∷ 3 ∷ []) refl (omega arith)

replace_first-ReplacedFirst_example :
    ReplacedFirst
      (codes "archive 17")
      (codes "archive 16")
      header
      (replace_first (codes "archive 17") (codes "archive 16") header)
replace_first-ReplacedFirst_example =
    replace_first-ReplacedFirst (codes "archive 17") (codes "archive 16") header
