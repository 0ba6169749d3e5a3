-- ===== src/Server/Clients.antt =====
-- The clients that a server accepts, and what `MessageClient` does to them (net_server.h).
use mathlib.Core.List.{append_assoc, append-nil}
use servy.Prelude.{
  ℕ, ◌+◌, ◌%◌, ◌^◌, ◌≤◌, ◌<◌, ◌≡◌, refl, ap, sym, ◌∙◌, inl, inr, true, false, List, [], ◌∷◌, ◌++◌,
  map, some, length, All, arith, ◌==◌, if◌then◌else◌, Bool-cases,
}
use mathlib.Core.Path.{ap₂}
use servy.Message.{Message}
use servy.Server.{Server, Connection, send, remove_null}
use servy.Server.Accept.{accepted, on_accept, message_client}

-- A series of accepted connections, at the addresses `cs`, whose sockets are open.
unfoldable pub accept_all : Server → List ℕ → Server
accept_all s [] = s
accept_all s (c ∷ cs) = accept_all (on_accept true c true s) cs

-- The numbers from `n` on, in 32 bits, one for each item.
unfoldable pub count_up : ℕ → List ℕ → List ℕ
count_up n [] = []
count_up n (c ∷ cs) = n ∷ count_up ((n + 1) % 2 ^ 32) cs

-- No item occurs twice.
abbrev pub IsDistinct : List ℕ → Type 0
IsDistinct [] = Unit
IsDistinct (c ∷ cs) = All (λ d. (c == d) ≡ false) cs × IsDistinct cs

on_accept_other :
    (s : Server) (c d : ℕ) → (d == c) ≡ false → (on_accept true d true s).conns c ≡ s.conns c
unfolding on_accept send
on_accept_other s c d h = ground (arith)

accept_all_other :
    (s : Server) (c : ℕ) (cs : List ℕ)
    → All (λ d. (c == d) ≡ false) cs
    → (accept_all s cs).conns c ≡ s.conns c
unfolding accept_all
accept_all_other s c [] h = refl
accept_all_other s c (d ∷ cs) h =
    accept_all_other (on_accept true d true s) c cs h.1
    ∙ on_accept_other s c d (ground (arith, h.0))

on_accept_self :
    (s : Server) (c : ℕ)
    → (on_accept true c true s).conns c ≡ record { id = s.id_counter; is_open = true }
unfolding on_accept send
on_accept_self s c = ground arith

-- What accepting the clients `cs` one after the other makes of a server.
pub record Welcomed (s t : Server) (cs : List ℕ) : Type 0 where
  pub kept : t.connections ≡ s.connections ++ map some cs
  pub greeted : t.outbox ≡ s.outbox ++ map (λ c. (c, accepted)) cs
  pub numbered : map (λ c. (t.conns c).id) cs ≡ count_up s.id_counter cs
  pub same_runs : t.scheduler ≡ s.scheduler

-- Clients with different addresses that the server accepts are kept in the order of their arrival,
-- each is sent one ServerAccept, and they get the next ids in turn; the scheduler is left alone.
pub accept_all-Welcomed :
    (s : Server) (cs : List ℕ) → IsDistinct cs → Welcomed s (accept_all s cs) cs
unfolding accept_all count_up on_accept send
accept_all-Welcomed s [] h = record {
  kept = sym (append-nil s.connections);
  greeted = sym (append-nil s.outbox);
  numbered = refl;
  same_runs = refl;
}
accept_all-Welcomed s (c ∷ cs) h =
    let w = accept_all-Welcomed (on_accept true c true s) cs h.1 in
    record {
      kept = w.kept ∙ append_assoc s.connections (some c ∷ []) (map some cs);
      greeted = w.greeted ∙ append_assoc s.outbox ((c, accepted) ∷ []) _;
      numbered =
          ap₂ ◌∷◌
            (ap (λ (n : Connection). n.id)
              (accept_all_other (on_accept true c true s) c cs h.0 ∙ on_accept_self s c))
            w.numbered;
      same_runs = w.same_runs;
    }

count_up_above :
    (m n : ℕ) (cs : List ℕ)
    → m < n
    → n + length cs ≤ 2 ^ 32
    → All (λ d. (m == d) ≡ false) (count_up n cs)
unfolding count_up
count_up_above m n [] h k = tt
count_up_above m n (c ∷ []) h k = (ground arith, tt)
count_up_above m n (c ∷ d ∷ cs) h k =
    let next : (n + 1) % 2 ^ 32 ≡ n + 1 = omega arith in
    (ground arith, rw next (count_up_above m (n + 1) (d ∷ cs) (omega arith) (omega arith)))

count_up-IsDistinct : (n : ℕ) (cs : List ℕ) → n + length cs ≤ 2 ^ 32 → IsDistinct (count_up n cs)
unfolding count_up
count_up-IsDistinct n [] k = tt
count_up-IsDistinct n (c ∷ []) k = (tt, tt)
count_up-IsDistinct n (c ∷ d ∷ cs) k =
    let next : (n + 1) % 2 ^ 32 ≡ n + 1 = omega arith in
    rw next (
      count_up_above n (n + 1) (d ∷ cs) (omega arith) (omega arith),
      count_up-IsDistinct (n + 1) (d ∷ cs) (omega arith),
    )

-- Until the 32-bit counter wraps, clients that the server accepts have different ids.
pub accept_all-IsDistinct :
    (s : Server) (cs : List ℕ)
    → IsDistinct cs
    → s.id_counter + length cs ≤ 2 ^ 32
    → IsDistinct (map (λ c. ((accept_all s cs).conns c).id) cs)
accept_all-IsDistinct s cs h k =
    rw (accept_all-Welcomed s cs h).numbered (count_up-IsDistinct s.id_counter cs k)

remove_null-map : (cs : List ℕ) → remove_null (map some cs) ≡ map some cs
unfolding remove_null
remove_null-map [] = refl
remove_null-map (c ∷ cs) = ap (◌∷◌ (some c)) (remove_null-map cs)

-- `MessageClient` sends the message to a client that is connected. A client that is not connected
-- stays in the container, where none of the pointers is null: the server is left as it was.
pub message_client_lem :
    (s : Server) (client : ℕ) (msg : Message) (cs : List ℕ)
    → s.connections ≡ map some cs
    → message_client s (some client) msg
      ≡ some (if (s.conns client).is_open then send s client msg else s)
unfolding message_client
message_client_lem s client msg cs e = elim (Bool-cases (s.conns client).is_open) [
  | inl up ↦ rw up
  | inr down ↦ rw down (
      ap (λ l. some (record s { connections = l })) (ap remove_null e ∙ remove_null-map cs ∙ sym e))
]
