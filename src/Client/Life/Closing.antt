-- ===== src/Client/Life/Closing.antt =====
-- Disconnect and what the context's thread does meanwhile (net_client.h).
use servy.Prelude.{
  ◌>>=◌, ℕ, ◌≡◌, refl, ap, sym, ◌∙◌, map, Bool, true, false, List, [], ◌∷◌, ◌++◌, Option, none,
  some, if◌then◌else◌, bound_some, inl, inr, length, Option-cases, not, ◌&&◌,
}
use mathlib.Core.Option.{some-injective}
use mathlib.Core.Path.{subst}
use mathlib.Core.List.{append-nil, append_assoc}
use servy.Message.{Message}
use servy.Connection
use servy.Connection.{Connection, close}
use servy.Connection.Link.Halves.{send-SameReading}
use servy.Client.Life.{
  Task, closes, sends, run_first, Interface, is_connected, perform, run_task, run_tasks, post_close,
  finish, disconnect,
}
use servy.Client.Life.Ending.{run_tasks-stopped}

connected :
    (c : Interface) (k : Connection)
    → c.connection ≡ some k
    → k.is_open ≡ true
    → is_connected c ≡ true
unfolding is_connected
connected c k h o = ap (λ o. elim o [ some k ↦ k.is_open | none ↦ false ]) h ∙ o

post_close-open :
    (c : Interface)
    → is_connected c ≡ true
    → post_close c ≡ record c { tasks = c.tasks ++ closes ∷ [] }
unfolding post_close
post_close-open c h = ap (λ b. if b then record c { tasks = c.tasks ++ closes ∷ [] } else c) h

finish-tasks : (c : Interface) → (finish c).tasks ≡ c.tasks
unfolding finish
finish-tasks c = refl

finish-stopped : (c : Interface) → (finish c).stopped ≡ true
unfolding finish
finish-stopped c = refl

released-finish :
    (c : Interface) (k : Connection)
    → c.connection ≡ some k
    → (finish c).released ≡ c.released ++ k ∷ []
unfolding finish
released-finish c k h = ap (λ o. c.released ++ elim o [ some k ↦ k ∷ [] | none ↦ [] ]) h

-- Tasks one after the other.
unfoldable pub perform_all : List Task → Option Connection → Option (Option Connection)
perform_all [] k = some k
perform_all (t ∷ ts) k = do k' ← perform t k; perform_all ts k'

run_task-running :
    (c : Interface) → c.thread ≡ true → c.stopped ≡ false → run_task c ≡ run_first c.tasks c
unfolding run_task
run_task-running c h k =
    ap (λ (t : Bool × Bool). if t.0 && not t.1 then run_first c.tasks c else some c)
      (λ i. (h i, k i))

run_tasks-perform_all :
    (ts more : List Task) (c : Interface)
    → c.tasks ≡ ts ++ more
    → c.thread ≡ true
    → c.stopped ≡ false
    → run_tasks (length ts) c
      ≡ (perform_all ts c.connection >>= λ k. some (record c { connection = k; tasks = more }))
unfolding run_tasks perform_all
run_tasks-perform_all [] more c e h s = ap some (λ i. record c { tasks = e i })
run_tasks-perform_all (t ∷ ts) more c e h s =
    let first = run_task-running c h s ∙ ap (λ ts. run_first ts c) e in
    elim (Option-cases (perform t c.connection)) [
      | inl k ↦ rw (first, k)
      | inr (k', k) ↦
          rw (first, k)
            (run_tasks-perform_all ts more (record c { connection = k'; tasks = ts ++ more }) refl h
              s)
    ]

perform_all-closes :
    (ts : List Task) (o : Option Connection) (k : Connection)
    → perform_all ts o ≡ some (some k)
    → perform_all (ts ++ closes ∷ []) o ≡ some (some (close k))
unfolding perform_all perform
perform_all-closes [] o k h = rw (some-injective _ _ h) refl
perform_all-closes (t ∷ ts) o k h =
    let (o', e, h') = bound_some (perform t o) (λ o. perform_all ts o) (some k) h in
    rw e (perform_all-closes ts o' k h')

-- If the context's thread runs all tasks before it is stopped, everything that was posted is done in
-- its order, and then the socket is closed; the connection is never destroyed all the same.
pub disconnect_late :
    (c : Interface) (k k' : Connection)
    → c.connection ≡ some k
    → k.is_open ≡ true
    → c.thread ≡ true
    → c.stopped ≡ false
    → perform_all c.tasks (some k) ≡ some (some k')
    → (d : Interface) × (disconnect (length (c.tasks ++ closes ∷ [])) c ≡ some d)
      × (d.released ≡ c.released ++ close k' ∷ [])
      × (d.tasks ≡ [])
unfolding disconnect
disconnect_late c k k' h o t s p =
    let posted = record c { tasks = c.tasks ++ closes ∷ [] } in
    let done = record c { connection = some (close k'); tasks = [] } in
    let ran : run_tasks (length posted.tasks) posted ≡ some done =
      run_tasks-perform_all posted.tasks [] posted (sym (append-nil posted.tasks)) t s
      ∙ (ap
            (λ o.
              perform_all posted.tasks o >>= λ k. some (record c { connection = k; tasks = [] }))
            h
          ∙ ap (λ o. o >>= λ k. some (record c { connection = k; tasks = [] }))
              (perform_all-closes c.tasks (some k) k' p)) in
    (
      finish done,
      ap (λ x. run_tasks (length posted.tasks) x >>= λ c'. some (finish c'))
            (post_close-open c (connected c k h o))
          ∙ ap (λ r. r >>= λ c'. some (finish c')) ran,
      released-finish done (close k') refl,
      finish-tasks done,
    )

-- What was posted is performed without closing the socket.
perform_all-is_open :
    (msgs : List Message) (k k' : Connection)
    → perform_all (map sends msgs) (some k) ≡ some (some k')
    → k'.is_open ≡ k.is_open
unfolding perform_all perform
perform_all-is_open [] k k' h =
    ap (λ (c : Connection). c.is_open) (sym (some-injective _ _ (some-injective _ _ h)))
perform_all-is_open (msg ∷ msgs) k k' h =
    let (o, e, h') =
      bound_some (perform (sends msg) (some k)) (λ o. perform_all (map sends msgs) o) (some k') h in
    let (d, e', f) = bound_some (package.servy.Connection.send k msg) (λ d. some (some d)) o e in
    let rest =
      subst (λ o. perform_all (map sends msgs) o ≡ some (some k')) (sym (some-injective _ _ f))
        h' in
    perform_all-is_open msgs d k' rest ∙ (send-SameReading k d msg e').is_open

-- If the context's thread has come to the Sends of some first messages only before it is stopped,
-- those are performed, and the connection is left as they leave it, its socket still open: the Sends
-- of the other messages and the closing stay posted and never run, and the connection, which `release`
-- has given up, is never destroyed.
pub disconnect_cut :
    (c : Interface) (k k' : Connection) (done left : List Message)
    → c.connection ≡ some k
    → k.is_open ≡ true
    → c.thread ≡ true
    → c.stopped ≡ false
    → c.tasks ≡ map sends done ++ map sends left
    → perform_all (map sends done) (some k) ≡ some (some k')
    → (d : Interface) × (disconnect (length (map sends done)) c ≡ some d)
      × (d.released ≡ c.released ++ k' ∷ [])
      × (k'.is_open ≡ true)
      × (d.tasks ≡ map sends left ++ closes ∷ [])
      × ((n : ℕ) → run_tasks n d ≡ some d)
unfolding disconnect
disconnect_cut c k k' done left h o t s q p =
    let more = map sends left ++ closes ∷ [] in
    let posted = record c { tasks = c.tasks ++ closes ∷ [] } in
    let cut = record c { connection = some k'; tasks = more } in
    let order : posted.tasks ≡ map sends done ++ more =
      ap (λ ts. ts ++ closes ∷ []) q
      ∙ append_assoc (map sends done) (map sends left) (closes ∷ []) in
    let ran : run_tasks (length (map sends done)) posted ≡ some cut =
      run_tasks-perform_all (map sends done) more posted order t s
      ∙ (ap
            (λ o. perform_all (map sends done) o >>= λ k.
              some (record c { connection = k; tasks = more }))
            h
          ∙ ap (λ o. o >>= λ k. some (record c { connection = k; tasks = more })) p) in
    (
      finish cut,
      ap (λ x. run_tasks (length (map sends done)) x >>= λ c'. some (finish c'))
            (post_close-open c (connected c k h o))
          ∙ ap (λ r. r >>= λ c'. some (finish c')) ran,
      released-finish cut k' refl,
      perform_all-is_open done k k' p ∙ o,
      finish-tasks cut,
      λ n. run_tasks-stopped n (finish cut) (finish-stopped cut),
    )
