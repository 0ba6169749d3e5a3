-- ===== src/Tests/Picking.antt =====
-- The user's picks beside the loop of main (client.cpp).
use servy.Prelude.{◌≡◌, refl, true, false, [], ◌∷◌, arith, All}
use mathlib.Core.List.{Mem}
use servy.Prelude.Int.{pos}
use servy.Client.Session.Picking.{
  Threads, at_start, looking, testing, joining, reading, stored, at_test, loop_step, loop_step_at,
  is_pick, act, tests, enters, stores, announces, main_steps, Reach, here, next,
}
use servy.Client.Session.Picking.Entered.{main_runs, acted-entered, main_runs-pick}

main_runs-pick_example :
    main_runs 10 (record at_start { usrpick = pos 3; gotnews = true; loop = looking })
    ≡ record at_start { usrpick = pos 3; gotnews = false; loop = looking; acted = 3 ∷ [] }
main_runs-pick_example = main_runs-pick at_start 2 (omega arith)

-- main behind its last test, and the user about to enter a number.
abbrev behind_tests : Threads
behind_tests = record at_start {
  usrpick = pos 2;
  gotnews = true;
  reader = reading;
  loop = testing [];
  entered = pos 2 ∷ [];
  acted = 2 ∷ [];
}

-- The user enters 1, and main acts on it.
abbrev after_number : Threads
after_number = record at_start {
  reader = stored;
  usrpick = pos 1;
  gotnews = false;
  entered = pos 1 ∷ [];
}

one_stored : Reach at_start after_number
one_stored =
    next (next (next here (tests refl refl)) (enters (pos 1) refl refl)) (stores (pos 1) refl refl)

abbrev after_act : Threads
after_act = record after_number {
  reader = at_test;
  gotnews = true;
  loop = testing (2 ∷ 3 ∷ 4 ∷ 5 ∷ 6 ∷ 7 ∷ 0 ∷ []);
  acted = 1 ∷ [];
}

one_acted : Reach at_start after_act
unfolding loop_step_at is_pick act
one_acted = next (next (next one_stored (announces refl refl)) (main_steps refl)) (main_steps refl)

acted-entered_example : All (λ k. Mem (pos k) after_act.entered) after_act.acted
acted-entered_example = acted-entered after_act one_acted

-- A number that replaces another between two tests is acted on in the same round and, since it is
-- announced after the reset of `gotnews`, in the next round again.
abbrev replaced : Threads
replaced =
    main_runs 8
      (record behind_tests { usrpick = pos 5; loop = testing (3 ∷ 4 ∷ 5 ∷ 6 ∷ 7 ∷ 0 ∷ []) })

acted_twice : (main_runs 10 (record replaced { gotnews = true })).acted ≡ 2 ∷ 5 ∷ 5 ∷ []
unfolding main_runs loop_step_at is_pick act
acted_twice = refl

-- After the pick 0 main waits for the reader, which waits for one more number.
joining_waits :
    loop_step (record behind_tests { loop = joining; quit = true })
    ≡ record behind_tests { loop = joining; quit = true }
unfolding loop_step_at
joining_waits = refl
