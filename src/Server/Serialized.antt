-- ===== src/Server/Serialized.antt =====
-- Requests whose runs are written and read by Boost's archives (run.h, net_common.h), from the
-- clients to the scheduler.
use servy.Prelude.{◌>>=◌, ℕ, ◌≤◌, ◌≡◌, List, [], ◌∷◌, some, length, All}
use servy.Archive.Serial.{Boost, archive}
use servy.Archive.Serial.RoundTrip.{IsArchive, load-save_run}
use servy.Server.{Server, with_scheduler}
use servy.Server.Requests.{IsCarried}
use servy.Server.Update.{update}
use servy.Server.Incoming.{Post, posted, asked_all, IsReadable, requests_in_order}

-- A run whose archive fits a message.
abbrev pub Fits : Boost → Post → Type 0
Fits b p = IsCarried ((archive b).save_run p.run)

Fits-IsReadable :
    (b : Boost) (v : IsArchive b) (ps : List Post)
    → All (Fits b) ps
    → All (IsReadable (archive b)) ps
Fits-IsReadable b v [] h = tt
Fits-IsReadable b v (p ∷ ps) h =
    (record { carried = h.0; readable = load-save_run b v p.run }, Fits-IsReadable b v ps h.1)

-- Requests about runs whose archives fit a message change the scheduler as they ask, with all the
-- members of their runs, one after the other, and nothing else of the server.
pub serialized_requests :
    (b : Boost) (v : IsArchive b) (n : ℕ) (s : Server) (ps : List Post)
    → All (Fits b) ps
    → length ps ≤ n
    → (posted (archive b) ps >>= update (archive b) n s)
      ≡ (with_scheduler s (asked_all s.scheduler ps) >>= λ t. some (t, []))
serialized_requests b v n s ps h k =
    requests_in_order (archive b) n s ps (Fits-IsReadable b v ps h) k
