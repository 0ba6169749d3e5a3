-- ===== src/Client/Session/Picking.antt =====
-- The user's picks on their way from `get_userpick` to the loop of main (client.cpp): two threads
-- that share `usrpick` and `gotnews`. The rest of the loop is left out, and `bQuit` is set only by
-- the pick 0.
pub mod Entered
use servy.Prelude.{ℕ, zero, suc, ◌≡◌, Bool, true, false, List, [], ◌∷◌, ◌++◌, if◌then◌else◌, ◌==◌}
use servy.Prelude.Int.{ℤ, pos, negsuc}

-- Where `get_userpick` stands.
pub data Reader : Type 0 where
  -- before the test `!bQuit`
  at_test : Reader
  -- in `std::cin >> tmp`
  reading : Reader
  -- behind it
  has : (tmp : ℤ) → Reader
  -- `usrpick` is set, and `gotnews` is not
  stored : Reader
  ended : Reader

-- Where main stands.
pub data Loop : Type 0 where
  -- before `if(gotnews)`
  looking : Loop
  -- before the tests on `usrpick` that are still to be made, and the reset of `gotnews` behind them
  testing : (picks : List ℕ) → Loop
  -- in `t1.join()`
  joining : Loop

pub record Threads : Type 0 where
  pub usrpick : ℤ
  pub gotnews : Bool
  pub quit : Bool
  pub reader : Reader
  pub loop : Loop
  -- what the user has entered, and what main has acted on
  pub entered : List ℤ
  pub acted : List ℕ

abbrev pub at_start : Threads
at_start = record {
  usrpick = negsuc 98;
  gotnews = false;
  quit = false;
  reader = at_test;
  loop = looking;
  entered = [];
  acted = [];
}

-- The picks that are tested, in their order.
abbrev pub menu : List ℕ
menu = 1 ∷ 2 ∷ 3 ∷ 4 ∷ 5 ∷ 6 ∷ 7 ∷ 0 ∷ []

unfoldable pub is_pick : ℤ → ℕ → Bool
is_pick (pos n) k = n == k
is_pick (negsuc n) k = false

-- The body of the test for `k`.
unfoldable pub act : Threads → ℕ → List ℕ → Threads
act s zero ks = record s { acted = s.acted ++ 0 ∷ []; quit = true; loop = joining }
act s (suc k) ks = record s { acted = s.acted ++ suc k ∷ []; loop = testing ks }

-- What main does next.
unfoldable pub loop_step_at : Loop → Threads → Threads
loop_step_at looking s = if s.gotnews then record s { loop = testing menu } else s
loop_step_at (testing []) s = record s { gotnews = false; loop = looking }
loop_step_at (testing (k ∷ ks)) s =
    if is_pick s.usrpick k then act s k ks else record s { loop = testing ks }
loop_step_at joining s = s

abbrev pub loop_step : Threads → Threads
loop_step s = loop_step_at s.loop s

-- What can happen next, the user entering any number.
pub data Step (s t : Threads) : Type 0 where
  tests :
      s.reader ≡ at_test → t ≡ record s { reader = if s.quit then ended else reading } → Step s t
  enters :
      (tmp : ℤ)
      → s.reader ≡ reading
      → t ≡ record s { reader = has tmp; entered = s.entered ++ tmp ∷ [] }
      → Step s t
  stores :
      (tmp : ℤ) → s.reader ≡ has tmp → t ≡ record s { usrpick = tmp; reader = stored } → Step s t
  announces : s.reader ≡ stored → t ≡ record s { gotnews = true; reader = at_test } → Step s t
  main_steps : t ≡ loop_step s → Step s t

pub data Reach (s : Threads) : Threads → Type 0 where
  here : Reach s s
  next : {t u : Threads} → Reach s t → Step t u → Reach s u
