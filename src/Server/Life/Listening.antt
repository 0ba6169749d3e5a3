-- ===== src/Server/Life/Listening.antt =====
-- How long a server listens (net_server.h).
use servy.Prelude.{
  ◌>>=◌, ℕ, suc, ◌≡◌, refl, Bool, true, false, List, [], ◌∷◌, none, some, if◌then◌else◌, arith, All,
  inl, inr, Bool-cases,
}
use servy.Server.{Server}
use servy.Server.Accept.{on_accept}
use servy.Server.Clients.{accept_all}
use servy.Server.Life.{
  Attempt, fails, comes, leaves, Host, new, wait_for_client, start, stop, on_attempt, run_accept,
  serve,
}

-- A server at work, for which `n + 1` accept operations wait.
abbrev pub listening : ℕ → Server → Host
listening n s = record { server = s; accepts = suc n; stopped = false; thread = true }

-- The clients that come.
abbrev pub comers : List Attempt → List ℕ
comers [] = []
comers (fails ∷ ts) = comers ts
comers (comes c o ∷ ts) = c ∷ comers ts
comers (leaves ∷ ts) = comers ts

-- One of the clients is gone when its handler runs.
abbrev pub one_leaves : List Attempt → Bool
one_leaves [] = false
one_leaves (fails ∷ ts) = one_leaves ts
one_leaves (comes c o ∷ ts) = one_leaves ts
one_leaves (leaves ∷ ts) = true

-- A client that comes has its socket open.
abbrev pub Opens : Attempt → Type 0
Opens fails = Unit
Opens (comes c o) = o ≡ true
Opens leaves = Unit

-- Each attempt is followed by another accept operation.
serve-listening :
    (n : ℕ) (s : Server) (ts : List Attempt)
    → All Opens ts
    → serve ts (listening n s)
      ≡ (if one_leaves ts then none else some (listening n (accept_all s (comers ts))))
unfolding serve run_accept on_attempt on_accept accept_all
serve-listening n s [] v = refl
serve-listening n s (fails ∷ ts) v = serve-listening n s ts v.1
serve-listening n s (comes c o ∷ ts) v = rw v.0 (serve-listening n (on_accept true c true s) ts v.1)
serve-listening n s (leaves ∷ ts) v = refl

-- A server that starts listens for good: whatever attempts fail, each client that comes is accepted,
-- one after the other, and as many accept operations wait as before, unless one of the clients is
-- gone when its handler asks for its address, which ends the process.
pub serve-start :
    (s : Server) (ts : List Attempt)
    → All Opens ts
    → (h : Host) × (start true (new s) ≡ some (h, true))
      × (serve ts h
          ≡ (if one_leaves ts then none else some (record h { server = accept_all s (comers ts) })))
unfolding start
serve-start s ts v = (listening 0 s, refl, serve-listening 0 s ts v)

run_accept-stopped : (h : Host) (t : Attempt) → h.stopped ≡ true → run_accept t h ≡ some h
unfolding run_accept
run_accept-stopped h t e = ground arith

serve-stopped : (h : Host) (ts : List Attempt) → h.stopped ≡ true → serve ts h ≡ some h
unfolding serve
serve-stopped h [] e = refl
serve-stopped h (t ∷ ts) e = rw (run_accept-stopped h t e) (serve-stopped h ts e)

start_twice : (h : Host) → start true h >>= (λ (g, _). start true g) ≡ none
unfolding start
start_twice h = elim (Bool-cases h.thread) [ inl e ↦ rw e refl | inr e ↦ rw e refl ]

-- A server that has stopped can start again, and Start returns true, but its context stays stopped:
-- no client is accepted any more. To start a server that has not been stopped in between ends the
-- process.
pub restart_idle :
    (h : Host)
    → (start true h >>= (λ (g, _). start true g) ≡ none)
      × ((g : Host) × (start true (stop h) ≡ some (g, true))
          × ((ts : List Attempt) → serve ts g ≡ some g))
unfolding start stop
restart_idle h = (
  start_twice h,
  (
    record (wait_for_client (record h { stopped = true })) { thread = true },
    refl,
    λ ts. serve-stopped _ ts refl,
  ),
)
