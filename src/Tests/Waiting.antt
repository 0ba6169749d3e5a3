-- ===== src/Tests/Waiting.antt =====
-- A thread that waits on a queue while another adds an item (net_tsqueue.h).
use servy.Prelude.{ℕ, ◌≡◌, refl, [], ◌∷◌, List, some}
use servy.TsQueue.{pop_back}
use servy.TsQueue.Wait.{
  Waiter, Pusher, Threads, Step, tests, adds, notifies, Reach, here, next, HasItem, Reach-HasItem,
  lost_wakeup, woken,
}

abbrev at_start : Threads ℕ
at_start = record { deque = []; waiter = Waiter.testing; pusher = Pusher.outside }

lost_wakeup_example :
    (t : Threads ℕ) × Reach at_start t
    × (t.deque ≡ 5 ∷ [])
    × (t.waiter ≡ Waiter.asleep)
    × ((u : Threads ℕ)
        → Step t u
        → (other : ℕ) × (u ≡ record t { deque = 5 ∷ other ∷ []; pusher = Pusher.added }))
lost_wakeup_example = lost_wakeup at_start 5 refl refl refl

abbrev served : Threads ℕ
served = record { deque = 5 ∷ []; waiter = Waiter.returned; pusher = Pusher.outside }

abbrev adding : Threads ℕ
adding = record { deque = 5 ∷ []; waiter = Waiter.testing; pusher = Pusher.added }

abbrev announced : Threads ℕ
announced = record { deque = 5 ∷ []; waiter = Waiter.testing; pusher = Pusher.outside }

served-Reach : Reach at_start served
unfolding woken
served-Reach =
    let first : Step at_start adding = adds 5 refl refl in
    let second : Step adding announced = notifies refl refl in
    let third : Step announced served = tests refl refl refl in
    next (next (next here first) second) third

start-HasItem : HasItem at_start
start-HasItem e = cc

Reach-HasItem_example : HasItem served
Reach-HasItem_example = Reach-HasItem start-HasItem served-Reach

abbrev three : List ℕ
three = 1 ∷ 2 ∷ 3 ∷ []

last_of_three : pop_back three ≡ some (3, 1 ∷ 2 ∷ [])
unfolding pop_back
last_of_three = refl
