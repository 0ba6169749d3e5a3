-- ===== src/Scheduler/History.antt =====
-- SimpleServer.cpp: what the lists of active and of done runs, which clients are shown, say of the
-- threads.
use mathlib.Core.List.{
  Perm, Mem, perm_middle, mem-cons_self, mem-cons, not-mem-nil, map-append, append-nil,
}
use mathlib.Core.List.Perm
use mathlib.Core.HLevel.{⊥_prop}
use mathlib.Core.Logic.Or
use mathlib.Core.Path.{subst}
use servy.Prelude.{◌≤◌, ◌≡◌, ap, sym, ◌∙◌, List, [], ◌∷◌, ◌++◌, map, arith, length, length-append}
use servy.Prelude.Text.{Text, str_eq, str_eq_refl, eq_of_str_eq}
use servy.Machine.{Machine}
use servy.Run.{Run, run_eq}
use servy.VQueue.{add_item}
use servy.VQueue.Search.{Absent}
use servy.VQueue.Items.{Removed, rm_item-Removed}
use servy.Scheduler.{
  Scheduler, Step, starts, ends, sends, moves_up, moves_down, removes, Reach, here, next, send_run,
  move_run_up, remove_run, init,
}
use servy.Scheduler.Sections.{
  started, start-Started, launched, ended, trimmed, end_run-ended, move_run_down-vq,
}

-- The extended ids of some runs.
abbrev pub xids : List Run → List Text
xids = map (λ r. r.xid)

xids-append : (q r : List Run) → xids (q ++ r) ≡ xids q ++ xids r
xids-append q r = map-append (λ x. x.xid) q r

Absent-xid : (q : List Run) (x : Run) → Absent run_eq x q → ¬ (Mem x.xid (xids q))
unfolding run_eq
Absent-xid [] x h m = not-mem-nil m
Absent-xid (y ∷ q) x h m =
    Or.elim ⊥_prop (mem-cons.0 m)
      (λ e. cc (sym (str_eq_refl y.xid) ∙ ap (str_eq y.xid) (sym e), h.0)) (Absent-xid q x h.1)

Removed-xids :
    (q r : List Run) (x : Run)
    → Removed run_eq x q r
    → Mem x.xid (xids q)
    → Perm (xids q) (x.xid ∷ xids r)
unfolding run_eq
Removed-xids q r x (Removed.missing h e) m = absurd (Absent-xid q x h m)
Removed-xids q r x (Removed.removed pre y post p h hit e) m =
    rw (p, e, xids-append pre (y ∷ post), xids-append pre post, ← eq_of_str_eq y.xid x.xid hit)
      (perm_middle (xids pre) (xids post))

add_item-xids : (q : List Run) (r : Run) → Perm (xids (add_item q r)) (r.xid ∷ xids q)
unfolding add_item
add_item-xids q r = rw (xids-append q (r ∷ [])) (
    subst (λ l. Perm (xids q ++ r.xid ∷ []) (r.xid ∷ l)) (append-nil (xids q))
      (perm_middle (xids q) []))

-- The list of active runs shows the runs whose threads are at work, as often as they are, by their
-- extended ids.
pub record IsTracked (s : Scheduler) : Type 0 where
  pub tracked : Perm (xids s.active_runs) (xids s.threads)

launched-IsTracked :
    (s : Scheduler) (r : Run) (rest : List Run) → IsTracked s → IsTracked (launched s r rest)
launched-IsTracked s r rest v = record {
  tracked = Perm.trans (add_item-xids s.active_runs r) (Perm.cons r.xid v.tracked);
}

ended-IsTracked :
    (s : Scheduler) (pre : List Run) (r : Run) (post : List Run)
    → s.threads ≡ pre ++ r ∷ post
    → IsTracked s
    → IsTracked (ended r (record s { threads = pre ++ post }))
ended-IsTracked s pre r post e v =
    let front : Perm (xids s.active_runs) (r.xid ∷ xids (pre ++ post)) = Perm.trans v.tracked (
      rw (e, xids-append pre (r ∷ post), xids-append pre post)
        (perm_middle (xids pre) (xids post))) in
    let there : Mem r.xid (xids s.active_runs) =
      Perm.subset (Perm.symm front) r.xid mem-cons_self in
    record {
      tracked = Perm.cons_inv (
          Perm.trans
            (Perm.symm
              (Removed-xids s.active_runs _ r (rm_item-Removed run_eq s.active_runs r) there))
            front);
    }

trimmed-le : (done : List Run) → length done ≤ 6 → length (trimmed done) ≤ 5
unfolding trimmed
trimmed-le [] h = omega arith
trimmed-le (r ∷ done) h = ground arith

-- At most six runs are kept as done.
abbrev pub IsShort : Scheduler → Type 0
IsShort s = length s.done_runs ≤ 6

module _ {Accepts : Run → Type 0} where
  pub Step-IsTracked : {s t : Scheduler} → Step Accepts s t → IsTracked s → IsTracked t
  unfolding send_run move_run_up remove_run
  Step-IsTracked {s} {t} (starts h) v = elim (start-Started s t h) [
    | started r rest e fits e' ↦ rw e' (launched-IsTracked s r rest v)
  ]
  Step-IsTracked {s} {t} (ends r pre post e h) v =
      rw (end_run-ended r (record s { threads = pre ++ post }) t h)
        (ended-IsTracked s pre r post e v)
  Step-IsTracked (sends r g e) v = rw e (record { tracked = v.tracked })
  Step-IsTracked (moves_up r e) v = rw e (record { tracked = v.tracked })
  Step-IsTracked {s} {t} (moves_down r h) v =
      let (q, moved, e) = move_run_down-vq s t r h in rw e (record { tracked = v.tracked })
  Step-IsTracked (removes r e) v = rw e (record { tracked = v.tracked })

  Reach-IsTracked : {s t : Scheduler} → IsTracked s → Reach Accepts s t → IsTracked t
  Reach-IsTracked h here = h
  Reach-IsTracked h (next r st) = Step-IsTracked st (Reach-IsTracked h r)

  Step-IsShort : {s t : Scheduler} → Step Accepts s t → IsShort s → IsShort t
  unfolding send_run move_run_up remove_run add_item
  Step-IsShort {s} {t} (starts h) v = elim (start-Started s t h) [
    | started r rest e fits e' ↦ rw e' v
  ]
  Step-IsShort {s} {t} (ends r pre post e h) v =
      rw (end_run-ended r (record s { threads = pre ++ post }) t h)
        (omega (arith, length-append (trimmed s.done_runs) (r ∷ []), trimmed-le s.done_runs v))
  Step-IsShort (sends r g e) v = rw e v
  Step-IsShort (moves_up r e) v = rw e v
  Step-IsShort {s} {t} (moves_down r h) v = let (q, moved, e) = move_run_down-vq s t r h in rw e v
  Step-IsShort (removes r e) v = rw e v

  Reach-IsShort : {s t : Scheduler} → IsShort s → Reach Accepts s t → IsShort t
  Reach-IsShort h here = h
  Reach-IsShort h (next r st) = Step-IsShort st (Reach-IsShort h r)

  -- In every state that the server can reach, whatever the clients send, the active runs that a
  -- status shows are the runs at work, one for one by their extended ids, and at most six are shown
  -- as done.
  pub status_shows_threads :
      (ms : List Machine) (t : Scheduler)
      → Reach Accepts (init ms) t
      → Perm (xids t.active_runs) (xids t.threads) × (length t.done_runs ≤ 6)
  status_shows_threads ms t r = (
    (Reach-IsTracked (record { tracked = Perm.refl [] }) r).tracked,
    Reach-IsShort (omega arith) r,
  )
