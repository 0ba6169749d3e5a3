-- ===== src/Client/Session/Picking/Entered.antt =====
-- Which of the numbers that the user enters main acts on (client.cpp).
use servy.Prelude.{
  ℕ, zero, suc, ◌≡◌, ◌<◌, ◌≢◌, refl, ap, inl, inr, true, false, List, [], ◌∷◌, ◌++◌, arith, All,
  All-mono, All-append, Bool, if◌then◌else◌, Bool-cases,
}
use mathlib.Core.Path.{subst}
use mathlib.Core.List.{Mem, mem-append_left, mem-append_right, mem-cons_self}
use servy.Prelude.Int.{ℤ, pos, negsuc}
use servy.Client.Session.Picking.{
  Reader, reading, has, stored, ended, Loop, looking, testing, joining, Threads, menu, is_pick, act,
  loop_step_at, loop_step, Step, tests, enters, stores, announces, main_steps, Reach, here, next,
  at_start,
}

-- Everything that is acted on, or can be, has been entered.
record IsEntered (s : Threads) : Type 0 where
  done : All (λ k. Mem (pos k) s.entered) s.acted
  kept : (k : ℕ) → is_pick s.usrpick k ≡ true → Mem (pos k) s.entered
  held : (tmp : ℤ) → s.reader ≡ has tmp → Mem tmp s.entered

pos_of_is_pick : (z : ℤ) (k : ℕ) → is_pick z k ≡ true → z ≡ pos k
unfolding is_pick
pos_of_is_pick (pos n) k h = ap pos (ground arith)
pos_of_is_pick (negsuc n) k h = cc

-- Main changes neither what is entered nor what the reader holds.
act-IsEntered :
    (s : Threads) (k : ℕ) (ks : List ℕ)
    → is_pick s.usrpick k ≡ true
    → IsEntered s
    → IsEntered (act s k ks)
unfolding act
act-IsEntered s zero ks p h = record {
  done = All-append (λ k. Mem (pos k) s.entered) s.acted (0 ∷ []) h.done (h.kept 0 p, tt);
  kept = h.kept;
  held = h.held;
}
act-IsEntered s (suc k) ks p h = record {
  done = All-append (λ k. Mem (pos k) s.entered) s.acted (suc k ∷ []) h.done (h.kept (suc k) p, tt);
  kept = h.kept;
  held = h.held;
}

if-IsEntered :
    (b : Bool) (s t : Threads) → IsEntered s → IsEntered t → IsEntered (if b then s else t)
if-IsEntered true s t h k = h
if-IsEntered false s t h k = k

loop_step_at-IsEntered : (l : Loop) (s : Threads) → IsEntered s → IsEntered (loop_step_at l s)
unfolding loop_step_at
loop_step_at-IsEntered looking s h =
    if-IsEntered s.gotnews (record s { loop = testing menu }) s
      (record { done = h.done; kept = h.kept; held = h.held }) h
loop_step_at-IsEntered (testing []) s h = record { done = h.done; kept = h.kept; held = h.held }
loop_step_at-IsEntered (testing (k ∷ ks)) s h = elim (Bool-cases (is_pick s.usrpick k)) [
  | inl e ↦ rw e (act-IsEntered s k ks e h)
  | inr e ↦ rw e (record { done = h.done; kept = h.kept; held = h.held })
]
loop_step_at-IsEntered joining s h = h

-- A reader that does not hold a number.
holds_none :
    (r : Reader) (s : Threads)
    → ((tmp : ℤ) → r ≢ has tmp)
    → IsEntered s
    → IsEntered (record s { reader = r })
holds_none r s n h = record { done = h.done; kept = h.kept; held = λ tmp e. absurd (n tmp e) }

has-injective : (a b : ℤ) → has a ≡ has b → a ≡ b
has-injective a b e = cc

number_entered :
    (s : Threads) (tmp : ℤ)
    → IsEntered s
    → IsEntered (record s { reader = has tmp; entered = s.entered ++ tmp ∷ [] })
number_entered s tmp h = record {
  done =
      All-mono (λ k. Mem (pos k) s.entered) (λ k. Mem (pos k) (s.entered ++ tmp ∷ [])) s.acted
        (λ k m. mem-append_left (tmp ∷ []) m) h.done;
  kept = λ k e. mem-append_left (tmp ∷ []) (h.kept k e);
  held = λ x e.
      subst (λ y. Mem y (s.entered ++ tmp ∷ [])) (has-injective tmp x e)
        (mem-append_right s.entered mem-cons_self);
}

number_stored :
    (s : Threads) (tmp : ℤ)
    → s.reader ≡ has tmp
    → IsEntered s
    → IsEntered (record s { usrpick = tmp; reader = stored })
number_stored s tmp r h = record {
  done = h.done;
  kept = λ k e. subst (λ y. Mem y s.entered) (pos_of_is_pick tmp k e) (h.held tmp r);
  held = λ x e. cc;
}

next_reader : (quit : Bool) (tmp : ℤ) → (if quit then ended else reading) ≢ has tmp
next_reader true tmp e = cc
next_reader false tmp e = cc

Step-IsEntered : {s t : Threads} → Step s t → IsEntered s → IsEntered t
Step-IsEntered {s} (tests r e) h =
    rw e (holds_none (if s.quit then ended else reading) s (next_reader s.quit) h)
Step-IsEntered {s} (enters tmp r e) h = rw e (number_entered s tmp h)
Step-IsEntered {s} (stores tmp r e) h = rw e (number_stored s tmp r h)
Step-IsEntered {s} (announces r e) h =
    rw e (record { done = h.done; kept = h.kept; held = λ tmp k. cc })
Step-IsEntered {s} (main_steps e) h = rw e (loop_step_at-IsEntered s.loop s h)

Reach-IsEntered : {s t : Threads} → Reach s t → IsEntered s → IsEntered t
Reach-IsEntered here h = h
Reach-IsEntered (next r st) h = Step-IsEntered st (Reach-IsEntered r h)

start-IsEntered : IsEntered at_start
unfolding is_pick
start-IsEntered = record { done = tt; kept = λ k e. cc; held = λ tmp e. cc }

-- Whatever the order of the two threads, main acts only on picks that the user has entered.
pub acted-entered : (t : Threads) → Reach at_start t → All (λ k. Mem (pos k) t.entered) t.acted
acted-entered t r = (Reach-IsEntered r start-IsEntered).done

-- Steps of main alone.
unfoldable pub main_runs : ℕ → Threads → Threads
main_runs zero s = s
main_runs (suc n) s = main_runs n (loop_step s)

-- A pick from 1 to 7 that is announced while main looks is acted on once by the ten steps that end
-- with the reset of `gotnews`, if the user enters no other in between.
pub main_runs-pick :
    (s : Threads) (n : ℕ)
    → n < 7
    → main_runs 10 (record s { usrpick = pos (suc n); gotnews = true; loop = looking }) ≡ record s {
      usrpick = pos (suc n);
      gotnews = false;
      loop = looking;
      acted = s.acted ++ suc n ∷ [];
    }
unfolding main_runs loop_step_at is_pick act
main_runs-pick s zero h = refl
main_runs-pick s (suc zero) h = refl
main_runs-pick s (suc (suc zero)) h = refl
main_runs-pick s (suc (suc (suc zero))) h = refl
main_runs-pick s (suc (suc (suc (suc zero)))) h = refl
main_runs-pick s (suc (suc (suc (suc (suc zero))))) h = refl
main_runs-pick s (suc (suc (suc (suc (suc (suc zero)))))) h = refl
main_runs-pick s (suc (suc (suc (suc (suc (suc (suc n))))))) h = absurd (omega arith)
