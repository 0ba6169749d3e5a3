-- ===== src/Run.antt =====
-- run.h: a run, its extended id, the `operator==` that compares extended ids, and the two shell
-- commands of `execute`. `std::system` is not modelled: the commands are the result.
pub mod Identity
pub mod Order
use servy.Prelude.{
  Bool, false, List, [], ◌∷◌, ◌++◌, Option, none, some, length, ◌==◌, if◌then◌else◌,
}
use servy.Prelude.Int.{ℤ, pos}
use servy.Prelude.Text.{Text, codes, str_eq}
use servy.Prelude.Decimal.{show_ℤ, set_width}
use servy.Machine.{Machine}

pub record Run : Type 0 where
  pub id : ℤ
  pub user : Text
  pub dir : Text
  pub sim_name : Text
  pub run_cmd : Text
  pub xid : Text
  pub machines : List Machine

-- ctor_helper: the user, an underscore and the id, zero-filled to five characters
unfoldable pub xid_of : Text → ℤ → Text
xid_of user id = user ++ b'_' ∷ set_width 5 b'0' (show_ℤ id)

-- run(user, id, dir, sim_name, run_cmd, mlist)
abbrev pub new : Text → ℤ → Text → Text → Text → List Machine → Run
new user id dir sim_name run_cmd mlist = record {
  id = id;
  user = user;
  dir = dir;
  sim_name = sim_name;
  run_cmd = run_cmd;
  xid = xid_of user id;
  machines = mlist;
}

-- run(user, id): the other members are empty
abbrev pub reference : Text → ℤ → Run
reference user id = new user id [] [] [] []

-- run(): the user of the environment and the id 0
abbrev pub default : Text → Run
default env_user = reference env_user (pos 0)

-- operator==
unfoldable pub run_eq : Run → Run → Bool
run_eq lhs rhs = str_eq lhs.xid rhs.xid

-- `xdir.back() != '/'`, for a directory that is not empty
unfoldable pub ends_in_slash : Text → Bool
ends_in_slash [] = false
ends_in_slash (c ∷ []) = c == b'/'
ends_in_slash (c ∷ d ∷ s) = ends_in_slash (d ∷ s)

-- The directory of the results: `m_dir`, a slash if it has none, and the extended id.
unfoldable pub result_dir : Run → Text
unfolding ends_in_slash
result_dir r = (if ends_in_slash r.dir then r.dir else r.dir ++ codes "/") ++ r.xid

-- execute: the texts handed to `std::system`. `back()` of an empty directory is undefined: `none`.
unfoldable pub execute : Run → Option (Text × Text)
unfolding result_dir
execute r =
    if length r.dir == 0
    then none
    else some (
      codes "mkdir " ++ result_dir r,
      r.run_cmd ++ codes " > " ++ result_dir r ++ codes "/res.dat",
    )
