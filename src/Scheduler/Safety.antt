-- ===== src/Scheduler/Safety.antt =====
-- SimpleServer.cpp: whatever the clients send and however the threads interleave, the cores that the
-- executing runs asked for are reserved, and no machine is overcommitted.
use servy.Prelude.{◌≡◌, List, [], ◌∷◌, ◌++◌, arith, All, All-map₂, All-mono}
use servy.Prelude.Int.{pos, ◌≤ℤ◌, int_laws}
use servy.Machine.{Machine}
use servy.Run.{Run, run_eq}
use servy.Cluster.Fits.{FitsAll, can_alloc_iff}
use servy.Cluster.Reserve.{alloc_lines, free_lines, alloc-eq-map, free-eq-map}
use servy.VQueue.Members.{All-add_item, All-mvup, All-mvdn, All-rm_item, All-remove, All-member}
use servy.Scheduler.{
  Scheduler, Step, starts, ends, sends, moves_up, moves_down, removes, Reach, here, next, send_run,
  move_run_up, remove_run, init,
}
use servy.Scheduler.Sections.{
  started, start-Started, launched, ended, end_run-ended, move_run_down-vq,
}
use servy.Scheduler.Books.{IsGood, IsBooked, load, alloc_lines-IsBooked, free_lines-IsBooked}

pub record IsSafe (s : Scheduler) : Type 0 where
  pub waiting : All IsGood s.vq
  pub executing : All IsGood s.threads
  pub books : All (IsBooked s.threads) s.mcluster

launched-IsSafe :
    (s : Scheduler) (r : Run) (rest : List Run)
    → All IsGood (r ∷ rest)
    → All (FitsAll r.machines) s.mcluster
    → IsSafe s
    → IsSafe (launched s r rest)
launched-IsSafe s r rest g f v = record {
  waiting = g.1;
  executing = (g.0, v.executing);
  books = rw (alloc-eq-map s.mcluster r.machines) (
      All-map₂ (IsBooked s.threads) (FitsAll r.machines) (IsBooked (r ∷ s.threads))
        (alloc_lines r.machines) s.mcluster
        (λ cm b fits. alloc_lines-IsBooked r s.threads cm g.0 b fits) v.books f);
}

ended-IsSafe :
    (s : Scheduler) (pre : List Run) (r : Run) (post : List Run)
    → s.threads ≡ pre ++ r ∷ post
    → IsSafe s
    → IsSafe (ended r (record s { threads = pre ++ post }))
ended-IsSafe s pre r post e v =
    let all : All IsGood (pre ++ r ∷ post) = rw e at v.executing in
    let others = All-remove IsGood pre r post all in
    let books : All (IsBooked (pre ++ r ∷ post)) s.mcluster = rw e at v.books in
    record {
      waiting = v.waiting;
      executing = others;
      books = rw (free-eq-map s.mcluster r.machines) (
          All-map₂ (IsBooked (pre ++ r ∷ post)) (IsBooked (pre ++ r ∷ post))
            (IsBooked (pre ++ post)) (free_lines r.machines) s.mcluster
            (λ cm b _.
              free_lines-IsBooked pre r post cm (All-member IsGood pre r post all) others b)
            books books);
    }

-- Every step keeps the invariant, if clients send good runs.
pub Step-IsSafe : {s t : Scheduler} → Step IsGood s t → IsSafe s → IsSafe t
unfolding send_run move_run_up remove_run
Step-IsSafe {s} {t} (starts h) v = elim (start-Started s t h) [
  | started r rest e fits e' ↦ rw e' (
      launched-IsSafe s r rest (rw e at v.waiting) ((can_alloc_iff s.mcluster r.machines).0 fits) v)
]
Step-IsSafe {s} {t} (ends r pre post e h) v =
    rw (end_run-ended r (record s { threads = pre ++ post }) t h) (ended-IsSafe s pre r post e v)
Step-IsSafe {s} {t} (sends r g e) v = rw e (record {
  waiting = All-add_item IsGood run_eq s.vq r v.waiting g;
  executing = v.executing;
  books = v.books;
})
Step-IsSafe {s} {t} (moves_up r e) v = rw e (record {
  waiting = All-mvup IsGood run_eq s.vq r v.waiting;
  executing = v.executing;
  books = v.books;
})
Step-IsSafe {s} {t} (moves_down r h) v =
    let (q, moved, e) = move_run_down-vq s t r h in
    rw e (record {
      waiting = All-mvdn IsGood run_eq s.vq r q moved v.waiting;
      executing = v.executing;
      books = v.books;
    })
Step-IsSafe {s} {t} (removes r e) v = rw e (record {
  waiting = All-rm_item IsGood run_eq s.vq r v.waiting;
  executing = v.executing;
  books = v.books;
})

pub Reach-IsSafe : {s t : Scheduler} → IsSafe s → Reach IsGood s t → IsSafe t
Reach-IsSafe h here = h
Reach-IsSafe h (next r st) = Step-IsSafe st (Reach-IsSafe h r)

-- A machine as its constructor leaves it, with a size that is not negative.
pub record IsFresh (cm : Machine) : Type 0 where
  pub size_nonneg : pos 0 ≤ℤ cm.size
  pub idle : cm.res ≡ pos 0
  pub all_free : cm.free ≡ cm.size

IsFresh-IsBooked : (cm : Machine) → IsFresh cm → IsBooked [] cm
unfolding load
IsFresh-IsBooked cm f = record {
  valid = record {
    total = rw (f.idle, f.all_free) (omega int_laws);
    res_nonneg = rw f.idle (omega arith);
    free_nonneg = rw f.all_free f.size_nonneg;
  };
  booked = f.idle;
}

pub init-IsSafe : (ms : List Machine) → All IsFresh ms → IsSafe (init ms)
init-IsSafe ms f = record {
  waiting = tt;
  executing = tt;
  books = All-mono IsFresh (IsBooked []) ms IsFresh-IsBooked f;
}

IsBooked-fits : (rs : List Run) (cm : Machine) → IsBooked rs cm → load cm.name rs ≤ℤ cm.size
IsBooked-fits rs cm b =
    rw (← b.booked, ← b.valid.total) (let free = b.valid.free_nonneg in omega int_laws)

-- From the start of the server, in every state that good runs can lead to, the runs that execute
-- ask for no more cores of any machine than the machine has, and just those cores are reserved.
pub never_overcommitted :
    (ms : List Machine) (t : Scheduler)
    → All IsFresh ms
    → Reach IsGood (init ms) t
    → All (λ cm. (load cm.name t.threads ≤ℤ cm.size) × (cm.res ≡ load cm.name t.threads)) t.mcluster
never_overcommitted ms t f r =
    let safe = Reach-IsSafe (init-IsSafe ms f) r in
    All-mono (IsBooked t.threads) _ t.mcluster (λ cm b. (IsBooked-fits t.threads cm b, b.booked))
      safe.books
