-- ===== src/Tests/Arguments.antt =====
-- The arguments of the client (main of client.cpp).
use servy.Prelude.{◌≡◌, refl, true, List, [], ◌∷◌, Option, some, none, All, if◌then◌else◌}
use servy.Prelude.Int.{pos}
use servy.Prelude.Text.{Text, codes, str_eq}
use servy.Prelude.Decimal.{value}
use servy.MachineList.{skip_spaces, digits}
use servy.Client.Arguments.{
  safe_getenv, stoi, is_flag, Settings, assign, matching, next_arg, parse, or_env, with_env,
  goes_on, bails_out, with_run_id, read_arguments, is_unset_id,
}
use servy.Client.Spelling.{d, i, id, Given, spell, IsValue}
use servy.Client.Assigned.{last_given, Setting, setting, variable, sets, sets_id, HasNumber}
use servy.Client.Precedence.{chosen, IsRun, read_arguments-chosen, read_arguments-bails_out}

abbrev home : Text → Option Text
home var =
    if str_eq var (codes "USER")
    then some (codes "ann")
    else if str_eq var (codes "PWD")
    then some (codes "/home")
    else none

abbrev given : List Given
given =
    record { spelling = i; value = codes "7" }
    ∷ record { spelling = d; value = codes "/tmp" }
    ∷ record { spelling = id; value = codes "8" }
    ∷ []

given-IsValue : All (λ (g : Given). IsValue g.value) given
unfolding is_flag str_eq
given-IsValue = (
  (refl, (refl, (refl, (refl, (refl, (refl, tt)))))),
  (
    (refl, (refl, (refl, (refl, (refl, (refl, tt)))))),
    ((refl, (refl, (refl, (refl, (refl, (refl, tt)))))), tt),
  ),
)

seven : stoi (codes "7") ≡ some (pos 7)
unfolding stoi skip_spaces digits value
seven = refl

eight : stoi (codes "8") ≡ some (pos 8)
unfolding stoi skip_spaces digits value
eight = refl

given-HasNumber : All HasNumber given
given-HasNumber = ((λ e. (pos 7, seven)), ((λ e. absurd (cc e)), ((λ e. (pos 8, eight)), tt)))

dash_r-IsRun : IsRun (codes "-r")
unfolding str_eq
dash_r-IsRun = refl

the_id : stoi (chosen home (codes "RUN_ID") sets_id given) ≡ some (pos 8)
unfolding stoi skip_spaces digits value last_given or_env str_eq
the_id = refl

abbrev ReadGiven : Type 0
ReadGiven =
    (s : Settings) × (read_arguments home (codes "-r" ∷ spell given) ≡ some (goes_on true s))
    × (s.id ≡ pos 8)
    × ((k : Setting) → setting k s ≡ chosen home (variable k) (sets k) given)

read_arguments-chosen_example : ReadGiven
read_arguments-chosen_example =
    read_arguments-chosen home (codes "-r") given (pos 8) dash_r-IsRun given-IsValue given-HasNumber
      the_id (λ e. cc e)

abbrev only_dir : List Given
only_dir = record { spelling = d; value = codes "/tmp" } ∷ []

only_dir-IsValue : All (λ (g : Given). IsValue g.value) only_dir
unfolding is_flag str_eq
only_dir-IsValue = ((refl, (refl, (refl, (refl, (refl, (refl, tt)))))), tt)

no_id : last_given sets_id only_dir ≡ none
unfolding last_given
no_id = refl

no_run_id : home (codes "RUN_ID") ≡ none
unfolding str_eq
no_run_id = refl

read_arguments-bails_out_example :
    read_arguments home (codes "-r" ∷ spell only_dir) ≡ some bails_out
read_arguments-bails_out_example =
    read_arguments-bails_out home (codes "-r") only_dir dash_r-IsRun only_dir-IsValue no_id
      no_run_id

-- A flag that stands where a value is expected is taken as the value, and is seen again by the tests
-- behind the one that took it.
flag_as_value :
    read_arguments home (codes "-r" ∷ codes "-u" ∷ codes "-i" ∷ codes "7" ∷ [])
    ≡ some (
        goes_on true record {
          id = pos 7;
          user = codes "-i";
          dir = codes "/home";
          simfile = codes "BAD";
          run_cmd = codes "BAD";
          machstr = codes "BAD";
        })
unfolding read_arguments parse next_arg matching is_flag assign with_run_id with_env or_env
    safe_getenv is_unset_id stoi skip_spaces digits value str_eq
flag_as_value = refl

-- A flag without a value is undefined.
missing_value : read_arguments home (codes "-r" ∷ codes "-u" ∷ []) ≡ none
unfolding read_arguments parse next_arg matching is_flag str_eq
missing_value = refl

-- -1 is no id.
minus_one : read_arguments home (codes "-r" ∷ codes "-i" ∷ codes "-1" ∷ []) ≡ some bails_out
unfolding read_arguments parse next_arg matching is_flag assign with_run_id with_env or_env
    safe_getenv is_unset_id stoi skip_spaces digits value str_eq
minus_one = refl
