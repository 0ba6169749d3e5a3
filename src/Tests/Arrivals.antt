-- ===== src/Tests/Arrivals.antt =====
-- Clients that a server accepts, and requests that it takes from its incoming queue.
use servy.Prelude.{◌>>=◌, ◌≡◌, refl, List, [], ◌∷◌, map, some, arith}
use servy.Message.{OwnedMessage}
use servy.Server.{with_scheduler}
use servy.Server.Requests.{sends, ups}
use servy.Server.Accept.{message_client}
use servy.Server.Clients.{
  accept_all, Welcomed, IsDistinct, accept_all-Welcomed, accept_all-IsDistinct, message_client_lem,
}
use servy.Server.Update.{update}
use servy.Server.Incoming.{
  Post, posted, asked_all, handle_all, take, drop, update_in_order, requests_in_order,
}
use servy.Tests.Samples.{job}
use servy.Tests.Traffic.{sample, server, note, job-IsCarried, job_read}

accept_all-Welcomed_example : Welcomed server (accept_all server (7 ∷ 8 ∷ [])) (7 ∷ 8 ∷ [])
accept_all-Welcomed_example = accept_all-Welcomed server (7 ∷ 8 ∷ []) ((refl, tt), (tt, tt))

accept_all-IsDistinct_example :
    IsDistinct (map (λ c. ((accept_all server (7 ∷ 8 ∷ [])).conns c).id) (7 ∷ 8 ∷ []))
accept_all-IsDistinct_example =
    accept_all-IsDistinct server (7 ∷ 8 ∷ []) ((refl, tt), (tt, tt)) (omega arith)

-- Client 2 is closed, and stays.
message_client_lem_example : message_client server (some 2) note ≡ some server
message_client_lem_example = message_client_lem server 2 note (1 ∷ 2 ∷ 3 ∷ []) refl

-- Client 1 sends the run, and client 3 moves it up.
abbrev two_posts : List Post
two_posts =
    record { client = 1; request = sends; run = job }
    ∷ record { client = 3; request = ups; run = job }
    ∷ []

requests_in_order_example :
    (posted sample two_posts >>= update sample 10 server)
    ≡ (with_scheduler server (asked_all server.scheduler two_posts) >>= λ t. some (t, []))
requests_in_order_example =
    requests_in_order sample 10 server two_posts
      (
        record { carried = job-IsCarried; readable = job_read },
        (record { carried = job-IsCarried; readable = job_read }, tt),
      )
      (omega arith)

abbrev pings : List OwnedMessage
pings = record { remote = some 1; msg = note } ∷ record { remote = some 3; msg = note } ∷ []

update_in_order_example :
    update sample 1 server pings
    ≡ (handle_all sample server (take 1 pings) >>= λ s. some (s, drop 1 pings))
update_in_order_example = update_in_order sample 1 server pings
