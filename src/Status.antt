-- ===== src/Status.antt =====
-- The texts that the server shows: `print_str` and `get_machine_str` of machine.h, `operator<<` of
-- run.h, `print_str` of vq.h and `print_qstatus` of SimpleServer.cpp. A newline is the byte 10.
use servy.Prelude.{ℕ, zero, suc, Bool, true, false, List, [], ◌∷◌, ◌++◌, if◌then◌else◌}
use servy.Prelude.Text.{Text, codes}
use servy.Prelude.Decimal.{show_ℤ, set_width}
use servy.Machine.{Machine}
use servy.Run.{Run}
use servy.Scheduler.{Scheduler}

endl : Text
endl = 10 ∷ []

-- machine::print_str
unfoldable pub machine_str : Machine → Text
unfolding endl
machine_str m =
    set_width 10 b' ' m.name
    ++ codes " srf: "
    ++ set_width 2 b' ' (show_ℤ m.size)
    ++ codes " | "
    ++ set_width 2 b' ' (show_ℤ m.res)
    ++ codes " | "
    ++ set_width 2 b' ' (show_ℤ m.free)
    ++ endl

-- The loop of `get_machine_str`, with the flag `first`.
unfoldable pub machine_list_from : Bool → List Machine → Text
machine_list_from first [] = []
machine_list_from first (m ∷ ms) =
    (if first then [] else codes ",")
    ++ (m.name ++ codes ":" ++ show_ℤ m.size)
    ++ machine_list_from false ms

-- get_machine_str
unfoldable pub get_machine_str : List Machine → Text
get_machine_str ms = machine_list_from true ms

-- `substr(0, n)`
take : ℕ → Text → Text
take zero s = []
take (suc n) [] = []
take (suc n) (c ∷ s) = c ∷ take n s

-- operator<< of a run
unfoldable pub run_str : Run → Text
unfolding take
run_str r =
    codes "run( "
    ++ r.user
    ++ codes ", "
    ++ show_ℤ r.id
    ++ codes ", "
    ++ r.dir
    ++ codes ", "
    ++ r.sim_name
    ++ codes ", "
    ++ take 10 r.run_cmd
    ++ codes ", "
    ++ get_machine_str r.machines
    ++ codes " )"

-- vqueue::print_str, of runs
unfoldable pub queue_str : List Run → Text
unfolding endl
queue_str [] = []
queue_str (r ∷ q) = (run_str r ++ endl) ++ queue_str q

machines_str : List Machine → Text
machines_str [] = []
machines_str (m ∷ ms) = machine_str m ++ machines_str ms

-- print_qstatus
unfoldable pub print_qstatus : Scheduler → Text
unfolding endl machines_str
print_qstatus s =
    codes "== Q STATUS =="
    ++ endl
    ++ queue_str s.vq
    ++ endl
    ++ codes "== ACTIVE RUNS =="
    ++ endl
    ++ queue_str s.active_runs
    ++ endl
    ++ codes "== DONE RUNS =="
    ++ endl
    ++ queue_str s.done_runs
    ++ endl
    ++ codes "== CLUSTER STATUS =="
    ++ endl
    ++ machines_str s.mcluster
