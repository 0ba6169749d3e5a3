-- ===== src/Client/Life/Ending.antt =====
-- What becomes of a client that disconnects (net_client.h).
use servy.Prelude.{
  ℕ, zero, suc, ◌≡◌, refl, ap, sym, ◌∙◌, Bool, true, false, [], ◌∷◌, ◌++◌, none, some,
  if◌then◌else◌, bound_some, Bool-cases, inl, inr, not, ◌&&◌,
}
use mathlib.Core.Path.{subst}
use mathlib.Core.List.{append-nil}
use mathlib.Core.Option.{some-injective}
use servy.Message.{Message}
use servy.Connection
use servy.Connection.{Connection, client, close}
use servy.Client.Life.{
  closes, sends, run_first, Interface, is_connected, connect, send, run_task, run_tasks, post_close,
  finish, disconnect,
}

stopped_idle : (thread stopped : Bool) → stopped ≡ true → (thread && not stopped) ≡ false
stopped_idle false stopped h = refl
stopped_idle true stopped h = ap not h

-- A stopped context runs nothing.
run_task-stopped : (c : Interface) → c.stopped ≡ true → run_task c ≡ some c
unfolding run_task
run_task-stopped c h =
    ap (λ go. if go then run_first c.tasks c else some c) (stopped_idle c.thread c.stopped h)

pub run_tasks-stopped : (n : ℕ) (c : Interface) → c.stopped ≡ true → run_tasks n c ≡ some c
unfolding run_tasks
run_tasks-stopped zero c h = refl
run_tasks-stopped (suc n) c h = rw (run_task-stopped c h) (run_tasks-stopped n c h)

-- What a disconnected client looks like.
record IsOver (c : Interface) : Type 0 where
  gone : c.connection ≡ none
  halted : c.stopped ≡ true
  joined : c.thread ≡ false

disconnect-IsOver : (n : ℕ) (c d : Interface) → disconnect n c ≡ some d → IsOver d
unfolding disconnect finish
disconnect-IsOver n c d h =
    let (c', _, e) = bound_some (run_tasks n (post_close c)) (λ c'. some (finish c')) d h in
    subst IsOver (some-injective _ _ e) (record { gone = refl; halted = refl; joined = refl })

not_connected : (c : Interface) → c.connection ≡ none → is_connected c ≡ false
unfolding is_connected
not_connected c h = ap (λ o. elim o [ some k ↦ k.is_open | none ↦ false ]) h

send-closed : (c : Interface) (msg : Message) → is_connected c ≡ false → send c msg ≡ c
unfolding send
send-closed c msg h = ap (λ b. if b then record c { tasks = c.tasks ++ sends msg ∷ [] } else c) h

post_close-closed : (c : Interface) → is_connected c ≡ false → post_close c ≡ c
unfolding post_close
post_close-closed c h = ap (λ b. if b then record c { tasks = c.tasks ++ closes ∷ [] } else c) h

finish-IsOver : (c : Interface) → IsOver c → finish c ≡ c
unfolding finish
finish-IsOver c v = λ i. record {
  connection = sym v.gone i;
  tasks = c.tasks;
  stopped = sym v.halted i;
  thread = sym v.joined i;
  released =
      ((ap (λ o. c.released ++ elim o [ some k ↦ k ∷ [] | none ↦ [] ]) v.gone)
          ∙ append-nil c.released)
        i;
}

disconnect-IsOver_again : (m : ℕ) (d : Interface) → IsOver d → disconnect m d ≡ some d
unfolding disconnect
disconnect-IsOver_again m d v =
    rw (post_close-closed d (not_connected d v.gone), run_tasks-stopped m d v.halted)
      (ap some (finish-IsOver d v))

-- A client that has disconnected is not connected, sends nothing, runs no task any more, and another
-- Disconnect, as that of the destructor, changes nothing.
pub disconnected_for_good :
    (n : ℕ) (c d : Interface)
    → disconnect n c ≡ some d
    → (is_connected d ≡ false)
      × ((msg : Message) → send d msg ≡ d)
      × ((k : ℕ) → run_tasks k d ≡ some d)
      × ((m : ℕ) → disconnect m d ≡ some d)
disconnected_for_good n c d h =
    let v = disconnect-IsOver n c d h in
    let closed = not_connected d v.gone in
    (
      closed,
      λ msg. send-closed d msg closed,
      λ k. run_tasks-stopped k d v.halted,
      λ m. disconnect-IsOver_again m d v,
    )

send-stopped : (c : Interface) (msg : Message) → (send c msg).stopped ≡ c.stopped
unfolding send
send-stopped c msg = elim (Bool-cases (is_connected c)) [
  | inl e ↦ ap (λ b. (if b then record c { tasks = c.tasks ++ sends msg ∷ [] } else c).stopped) e
  | inr e ↦ ap (λ b. (if b then record c { tasks = c.tasks ++ sends msg ∷ [] } else c).stopped) e
]

new-is_open : (opens : Bool) → (package.servy.Connection.new client 0 opens 0).is_open ≡ opens
unfolding package.servy.Connection.new
new-is_open opens = refl

-- A client that has disconnected can connect again, and Connect returns true, but its context stays
-- stopped: no task that Send posts then ever runs.
pub reconnect_idle :
    (n : ℕ) (c d : Interface) (opens : Bool)
    → disconnect n c ≡ some d
    → (e : Interface) × (connect true opens d ≡ some (e, true))
      × (is_connected e ≡ opens)
      × ((msg : Message) (k : ℕ) → run_tasks k (send e msg) ≡ some (send e msg))
unfolding connect is_connected
reconnect_idle n c d opens h =
    let v = disconnect-IsOver n c d h in
    let e = record d {
      connection = some (package.servy.Connection.new client 0 opens 0);
      thread = true;
    } in
    (
      e,
      ap (λ b. if b then none else some (e, true)) v.joined,
      new-is_open opens,
      λ msg k. run_tasks-stopped k (send e msg) (send-stopped e msg ∙ v.halted),
    )
