-- ===== src/Tests/Queues.antt =====
-- vq.h and run.h at concrete queues.
use mathlib.Core.List.{Perm}
use servy.Prelude.{ℕ, ◌≡◌, ◌↔◌, refl, Bool, true, List, [], ◌∷◌, some, ◌==◌}
use servy.Prelude.Int.{ℤ, pos, negsuc}
use servy.Prelude.Text.{codes}
use servy.Prelude.Decimal.{show_ℤ, show_ℕ, set_width, fill}
use servy.Run.{xid_of, run_eq, execute, ends_in_slash, result_dir}
use servy.Run.Identity.{run_eq_iff}
use servy.VQueue.{mvup, mvdn, rm_item, find, iter_swap}
use servy.VQueue.Moves.{MovedUp, MovedDown, mvup-MovedUp, mvdn-MovedDown, mvdn-mvup}
use servy.VQueue.Items.{Removed, rm_item-Removed, mvup-perm}
use servy.Tests.Samples.{job}

abbrev same : ℕ → ℕ → Bool
same a b = a == b

abbrev three : List ℕ
three = 4 ∷ 5 ∷ 6 ∷ []

moves_up : mvup same three 6 ≡ 4 ∷ 6 ∷ 5 ∷ []
unfolding mvup find iter_swap
moves_up = refl

moves_down : mvdn same three 4 ≡ some (5 ∷ 4 ∷ 6 ∷ [])
unfolding mvdn find iter_swap
moves_down = refl

stays_last : mvdn same three 6 ≡ some three
unfolding mvdn find iter_swap
stays_last = refl

mvup-MovedUp_example : MovedUp same 6 three (mvup same three 6)
mvup-MovedUp_example = mvup-MovedUp same three 6

mvdn-MovedDown_example : MovedDown same 4 three (mvdn same three 4)
mvdn-MovedDown_example = mvdn-MovedDown same three 4

mvdn-mvup_example : mvdn same (mvup same three 6) 6 ≡ some three
mvdn-mvup_example = mvdn-mvup same three 6 (4 ∷ []) 5 6 [] refl (refl, (refl, tt)) refl

rm_item-Removed_example : Removed same 5 three (rm_item same three 5)
rm_item-Removed_example = rm_item-Removed same three 5

mvup-perm_example : Perm (mvup same three 6) three
mvup-perm_example = mvup-perm same three 6

pads : xid_of (codes "ann") (pos 42) ≡ codes "ann_00042"
unfolding xid_of set_width fill show_ℤ show_ℕ
pads = refl

pads_negative : xid_of (codes "ann") (negsuc 0) ≡ codes "ann_000-1"
unfolding xid_of set_width fill show_ℤ show_ℕ
pads_negative = refl

run_eq_iff_example :
    (run_eq job (record job { dir = codes "/home" }) ≡ true)
    ↔ ((codes "ann" ≡ codes "ann") × (◌≡◌ {A = ℤ} (pos 7) (pos 7)))
run_eq_iff_example =
    run_eq_iff (codes "ann") (codes "ann") (pos 7) (pos 7) (codes "/tmp") (codes "/home")
      (codes "a.sim") (codes "a.sim") (codes "go") (codes "go") job.machines job.machines

commands : execute job ≡ some (codes "mkdir /tmp/ann_00007", codes "go > /tmp/ann_00007/res.dat")
unfolding execute result_dir ends_in_slash xid_of set_width fill show_ℤ show_ℕ
commands = refl
