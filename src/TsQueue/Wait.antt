-- ===== src/TsQueue/Wait.antt =====
-- `wait` of net_tsqueue.h beside a thread that pushes: the queue, the thread that waits in `wait` and
-- takes items, and the thread that is in `push_back`. `push_back` holds `muxQueue` from before the
-- item is added until after the notification, so no other operation on the queue stands in between.
use servy.Prelude.{
  ◌≡◌, ◌≢◌, refl, ap, sym, ◌∙◌, inl, inr, false, List, [], ◌∷◌, some, Bool-cases, if◌then◌else◌,
}
use servy.TsQueue.{push_back, pop_front, empty}

-- Where the waiting thread stands.
pub data Waiter : Type 0 where
  -- before the test `empty()` of the loop
  testing : Waiter
  -- `empty()` has returned true, and `muxBlocking` is not yet locked
  found_empty : Waiter
  -- in `cvBlocking.wait`
  asleep : Waiter
  -- behind the loop
  returned : Waiter

-- Where the thread that adds an item stands.
pub data Pusher : Type 0 where
  -- outside of `push_back`
  outside : Pusher
  -- the item is added, and `notify_one` is to come
  added : Pusher

pub record Threads {ℓ} (A : Type ℓ) : Type ℓ where
  pub deque : List A
  pub waiter : Waiter
  pub pusher : Pusher

-- notify_one: a thread that waits goes on to the test.
unfoldable pub woken : Waiter → Waiter
woken asleep = testing
woken w = w

-- What can happen next. No thread wakes of itself here: the standard allows that it does, and does
-- not promise it.
pub data Step {ℓ} {A : Type ℓ} (s t : Threads A) : Type ℓ where
  tests :
      s.waiter ≡ testing
      → s.pusher ≡ outside
      → t ≡ record s { waiter = if empty s.deque then found_empty else returned }
      → Step s t
  sleeps : s.waiter ≡ found_empty → t ≡ record s { waiter = asleep } → Step s t
  adds :
      (item : A)
      → s.pusher ≡ outside
      → t ≡ record s { deque = push_back s.deque item; pusher = added }
      → Step s t
  notifies :
      s.pusher ≡ added → t ≡ record s { waiter = woken s.waiter; pusher = outside } → Step s t
  -- Only the thread that has waited takes items, and then it waits again.
  takes :
      (item : A) (rest : List A)
      → s.waiter ≡ returned
      → s.pusher ≡ outside
      → pop_front s.deque ≡ some (item, rest)
      → t ≡ record s { deque = rest; waiter = testing }
      → Step s t

pub data Reach {ℓ} {A : Type ℓ} (s : Threads A) : Threads A → Type ℓ where
  here : Reach s s
  next : {t u : Threads A} → Reach s t → Step t u → Reach s u

-- What `wait` promises: behind it the queue has an item.
abbrev pub HasItem {ℓ} : {A : Type ℓ} → Threads A → Type ℓ
HasItem s = s.waiter ≡ returned → s.deque ≢ []

woken-returned : (w : Waiter) → woken w ≡ returned → w ≡ returned
unfolding woken
woken-returned testing e = cc
woken-returned found_empty e = cc
woken-returned asleep e = cc
woken-returned returned e = refl

module _ {ℓ} {A : Type ℓ} where
  nonempty_of_test : (q : List A) → empty q ≡ false → q ≢ []
  nonempty_of_test [] h = cc
  nonempty_of_test (x ∷ q) h = λ e. cc

  push_back_ne : (q : List A) (x : A) → push_back q x ≢ []
  push_back_ne [] x e = cc
  push_back_ne (y ∷ q) x e = cc

  Step-HasItem : {s t : Threads A} → Step s t → HasItem s → HasItem t
  unfolding woken
  Step-HasItem {s} {t} (tests w p e) h = elim (Bool-cases (empty s.deque)) [
    | inl none_there ↦ rw (e, none_there) (λ r. cc)
    | inr some_there ↦ rw (e, some_there) (λ r. nonempty_of_test s.deque some_there)
  ]
  Step-HasItem {s} {t} (sleeps w e) h = rw e (λ r. cc)
  Step-HasItem {s} {t} (adds item p e) h = rw e (λ r. push_back_ne s.deque item)
  Step-HasItem {s} {t} (notifies p e) h = rw e (λ r. h (woken-returned s.waiter r))
  Step-HasItem {s} {t} (takes item rest w p k e) h = rw e (λ r. cc)

  -- Whenever `wait` has returned, the queue has an item to take, whatever the pushes in between: the
  -- thread that takes items finds the front that it reads.
  pub Reach-HasItem : {s t : Threads A} → HasItem s → Reach s t → HasItem t
  Reach-HasItem h here = h
  Reach-HasItem h (next r st) = Step-HasItem st (Reach-HasItem h r)

  asleep_waits :
      (t u : Threads A)
      → t.waiter ≡ asleep
      → t.pusher ≡ outside
      → Step t u
      → (item : A) × (u ≡ record t { deque = push_back t.deque item; pusher = added })
  asleep_waits t u w p (tests k o e) = cc
  asleep_waits t u w p (sleeps k e) = cc
  asleep_waits t u w p (adds item o e) = (item, e)
  asleep_waits t u w p (notifies k e) = cc
  asleep_waits t u w p (takes item rest k o f e) = cc

  -- The test and the sleep are not one step: an item that is added and announced in between leaves
  -- the waiting thread asleep beside a queue that is not empty, and nothing happens until another
  -- item is added.
  pub lost_wakeup :
      (s : Threads A) (item : A)
      → s.deque ≡ []
      → s.waiter ≡ testing
      → s.pusher ≡ outside
      → (t : Threads A) × Reach s t
        × (t.deque ≡ item ∷ [])
        × (t.waiter ≡ asleep)
        × ((u : Threads A)
            → Step t u
            → (other : A) × (u ≡ record t { deque = item ∷ other ∷ []; pusher = added }))
  unfolding woken
  lost_wakeup s item d w p =
      let s₁ : Threads A = record s { waiter = found_empty } in
      let s₂ : Threads A = record s₁ { deque = push_back s₁.deque item; pusher = added } in
      let s₃ : Threads A = record s₂ { pusher = outside } in
      let t : Threads A = record s₃ { waiter = asleep } in
      let after_test =
        λ (q : List A). record s { waiter = if empty q then found_empty else returned } in
      let after_push = λ (q : List A). record t { deque = q; pusher = added } in
      let first : Step s s₁ = tests w p (ap after_test (sym d)) in
      let second : Step s₁ s₂ = adds item p refl in
      let third : Step s₂ s₃ = notifies refl refl in
      (
        t,
        next (next (next (next here first) second) third) (sleeps refl refl),
        ap (λ q. push_back q item) d,
        refl,
        λ u st.
            let (other, e) = asleep_waits t u refl refl st in
            (other, e ∙ ap (λ q. after_push (push_back (push_back q item) other)) d),
      )
