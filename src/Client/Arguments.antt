-- ===== src/Client/Arguments.antt =====
-- The arguments of the client (main of client.cpp), with the environment that stands in for what is
-- not given. The environment is a parameter: what `getenv` gives. `none` stands for undefined
-- behaviour (a string made of the null pointer behind the last argument) or an exception of
-- `std::stoi` that ends the process.
use servy.Prelude.{
  ◌>>=◌, ℕ, ◌-◌, ◌^◌, Bool, true, false, ◌||◌, List, [], ◌∷◌, Option, none, some, ltb, leb, ◌==◌,
  if◌then◌else◌,
}
use servy.Prelude.Int.{ℤ, pos, negsuc}
use servy.Prelude.Text.{Text, codes, str_eq}
use servy.Prelude.Decimal.{value}
use servy.MachineList.{skip_spaces, digits}

abbrev pub bad : Text
bad = codes "BAD"

-- safe_getenv
unfoldable pub safe_getenv : (Text → Option Text) → Text → Text
safe_getenv getenv var = elim (getenv var) [ some env_p ↦ env_p | none ↦ bad ]

-- The number that the digits at the start of a text stand for; without a digit `std::stoi` throws.
abbrev number_of : Text → Option ℕ
number_of [] = none
number_of (d ∷ ds) = some (value 0 (d ∷ ds))

-- The number is an `int` or `std::stoi` throws.
abbrev as_positive : ℕ → Option ℤ
as_positive n = if ltb n (2 ^ 31) then some (pos n) else none

abbrev as_negative : ℕ → Option ℤ
as_negative n =
    if n == 0 then some (pos 0) else if leb n (2 ^ 31) then some (negsuc (n - 1)) else none

abbrev signed : Text → Option ℤ
signed [] = none
signed (c ∷ s) =
    if c == b'-'
    then number_of (digits s) >>= as_negative
    else if c == b'+'
    then number_of (digits s) >>= as_positive
    else number_of (digits (c ∷ s)) >>= as_positive

-- std::stoi
unfoldable pub stoi : Text → Option ℤ
stoi s = signed (skip_spaces s)

-- The tests in the loop over the arguments, in their order.
pub data Flag : Type 0 where
  user_flag dir_flag id_flag file_flag command_flag machines_flag : Flag

abbrev pub order : List Flag
order = user_flag ∷ dir_flag ∷ id_flag ∷ file_flag ∷ command_flag ∷ machines_flag ∷ []

unfoldable pub is_flag : Flag → Text → Bool
is_flag user_flag arg = str_eq (codes "-u") arg
is_flag dir_flag arg = str_eq (codes "-d") arg
is_flag id_flag arg = str_eq (codes "-i") arg || str_eq (codes "-id") arg
is_flag file_flag arg = str_eq (codes "-f") arg
is_flag command_flag arg = str_eq (codes "-c") arg
is_flag machines_flag arg = str_eq (codes "-m") arg || str_eq (codes "-on") arg

-- The variables of `main` that the arguments set.
pub record Settings : Type 0 where
  pub id : ℤ
  pub user : Text
  pub dir : Text
  pub simfile : Text
  pub run_cmd : Text
  pub machstr : Text

abbrev pub unset : Settings
unset = record { id = negsuc 0; user = bad; dir = bad; simfile = bad; run_cmd = bad; machstr = bad }

-- The body of a test that has matched.
unfoldable pub assign : Flag → Text → Settings → Option Settings
assign user_flag tmpstr s = some (record s { user = tmpstr })
assign dir_flag tmpstr s = some (record s { dir = tmpstr })
assign id_flag tmpstr s = do id ← stoi tmpstr; some (record s { id = id })
assign file_flag tmpstr s = some (record s { simfile = tmpstr })
assign command_flag tmpstr s = some (record s { run_cmd = tmpstr })
assign machines_flag tmpstr s = some (record s { machstr = tmpstr })

-- The first of the remaining tests that an argument meets, and the tests behind it.
unfoldable pub matching : List Flag → Text → Option (Flag × List Flag)
matching [] arg = none
matching (f ∷ fs) arg = if is_flag f arg then some (f, fs) else matching fs arg

unfoldable pub next_arg : List Text → Option Text
next_arg [] = none
next_arg (v ∷ rest) = some v

-- The loop over the arguments from `argv[i]` on, `tests` being those that the round has still to
-- make. A test that is met moves on to the value behind the flag, which the tests behind it see in
-- turn; a round with no test left ends with `i++`.
unfoldable pub parse : Settings → List Flag → List Text → Option Settings
parse s tests [] = some s
parse s tests (arg ∷ rest) = elim (matching tests arg) [
  | none ↦ parse s order rest
  | some (f, fs) ↦ next_arg rest >>= λ tmpstr. assign f tmpstr s >>= λ s'. parse s' fs rest
]

-- "CHECK Environment vars for args not passed"
unfoldable pub or_env : (Text → Option Text) → Text → Text → Text
or_env getenv var x = if str_eq x bad then safe_getenv getenv var else x

unfoldable pub with_env : (Text → Option Text) → Settings → Settings
with_env getenv s = record s {
  user = or_env getenv (codes "USER") s.user;
  dir = or_env getenv (codes "PWD") s.dir;
  simfile = or_env getenv (codes "SIM_NAME") s.simfile;
  run_cmd = or_env getenv (codes "RUN_COMMAND") s.run_cmd;
  machstr = or_env getenv (codes "MACHINES") s.machstr;
}

-- What `main` does once the arguments are read: it bails out for want of an id, or it goes on, with
-- a run to send or without.
pub data Start : Type 0 where
  bails_out : Start
  goes_on : (sendrun : Bool) → Settings → Start

unfoldable pub is_unset_id : ℤ → Bool
is_unset_id (negsuc n) = n == 0
is_unset_id (pos n) = false

unfoldable pub with_run_id : (Text → Option Text) → Bool → Settings → Option Start
unfolding is_unset_id
with_run_id getenv sendrun s =
    let run_id = safe_getenv getenv (codes "RUN_ID") in
    if is_unset_id s.id
    then if str_eq run_id bad
      then some bails_out
      else (do id ← stoi run_id; some (goes_on sendrun (record s { id = id })))
    else some (goes_on sendrun s)

-- main, from the arguments behind the program's name to the end of their reading
unfoldable pub read_arguments : (Text → Option Text) → List Text → Option Start
read_arguments getenv [] = some (goes_on false unset)
read_arguments getenv (first ∷ rest) =
    if str_eq (codes "-r") first || str_eq (codes "-run") first
    then (do s ← parse unset order rest; with_run_id getenv true (with_env getenv s))
    else with_run_id getenv false (with_env getenv unset)
