-- ===== src/Tests/Listening.antt =====
-- A server that starts, listens and stops (net_server.h).
use servy.Prelude.{◌≡◌, refl, true, List, [], ◌∷◌, some, none}
use servy.Server.Accept.{on_accept}
use servy.Server.Clients.{accept_all}
use servy.Server.Life.{
  Attempt, fails, comes, leaves, Host, new, start, on_attempt, run_accept, serve,
}
use servy.Server.Life.Listening.{serve-start}
use servy.Tests.Traffic.{server}

abbrev day : List Attempt
day = comes 7 true ∷ fails ∷ comes 8 true ∷ []

serve-start_example :
    (h : Host) × (start true (new server) ≡ some (h, true))
    × (serve day h ≡ some (record h { server = accept_all server (7 ∷ 8 ∷ []) }))
serve-start_example = serve-start server day (refl, (tt, (refl, tt)))

-- A client that is gone too early.
gone_early :
    serve (comes 7 true ∷ leaves ∷ []) (record (new server) { accepts = 1; thread = true }) ≡ none
unfolding serve run_accept on_attempt on_accept
gone_early = refl
