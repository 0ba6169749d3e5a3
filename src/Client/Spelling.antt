-- ===== src/Client/Spelling.antt =====
-- The arguments of the client as flags with their values, and what the loop over them does with
-- these (main of client.cpp).
use servy.Prelude.{
  ◌>>=◌, ◌≡◌, refl, ◌∙◌, inl, inr, false, List, [], ◌∷◌, Option, none, some, All, Option-cases,
}
use servy.Prelude.Text.{Text, codes, str_eq}
use servy.Client.Arguments.{
  Flag, user_flag, dir_flag, id_flag, file_flag, command_flag, machines_flag, order, is_flag,
  Settings, assign, matching, next_arg, parse,
}

-- The spellings of the flags.
pub data Spelling : Type 0 where
  u d i id f c m on : Spelling

abbrev pub text_of : Spelling → Text
text_of u = codes "-u"
text_of d = codes "-d"
text_of i = codes "-i"
text_of id = codes "-id"
text_of f = codes "-f"
text_of c = codes "-c"
text_of m = codes "-m"
text_of on = codes "-on"

abbrev pub flag_of : Spelling → Flag
flag_of u = user_flag
flag_of d = dir_flag
flag_of i = id_flag
flag_of id = id_flag
flag_of f = file_flag
flag_of c = command_flag
flag_of m = machines_flag
flag_of on = machines_flag

-- A flag with its value.
pub record Given : Type 0 where
  pub spelling : Spelling
  pub value : Text

unfoldable pub spell : List Given → List Text
spell [] = []
spell (g ∷ gs) = text_of g.spelling ∷ g.value ∷ spell gs

-- A text that is no flag.
abbrev pub IsValue : Text → Type 0
IsValue v = All (λ x. is_flag x v ≡ false) order

-- The values given, one after the other.
unfoldable pub assign_all : Settings → List Given → Option Settings
assign_all s [] = some s
assign_all s (g ∷ gs) = do s' ← assign (flag_of g.spelling) g.value s; assign_all s' gs

-- The tests behind that of a flag.
abbrev behind : Flag → List Flag
behind user_flag = dir_flag ∷ id_flag ∷ file_flag ∷ command_flag ∷ machines_flag ∷ []
behind dir_flag = id_flag ∷ file_flag ∷ command_flag ∷ machines_flag ∷ []
behind id_flag = file_flag ∷ command_flag ∷ machines_flag ∷ []
behind file_flag = command_flag ∷ machines_flag ∷ []
behind command_flag = machines_flag ∷ []
behind machines_flag = []

matching-flag : (x : Spelling) → matching order (text_of x) ≡ some (flag_of x, behind (flag_of x))
unfolding matching is_flag str_eq
matching-flag u = refl
matching-flag d = refl
matching-flag i = refl
matching-flag id = refl
matching-flag f = refl
matching-flag c = refl
matching-flag m = refl
matching-flag on = refl

none_match : (fs : List Flag) (v : Text) → All (λ x. is_flag x v ≡ false) fs → matching fs v ≡ none
unfolding matching
none_match [] v h = refl
none_match (x ∷ fs) v h = rw (h.0, none_match fs v h.1)

value_unmatched : (x : Flag) (v : Text) → IsValue v → matching (behind x) v ≡ none
value_unmatched user_flag v h = none_match _ v h.1
value_unmatched dir_flag v h = none_match _ v h.1.1
value_unmatched id_flag v h = none_match _ v h.1.1.1
value_unmatched file_flag v h = none_match _ v h.1.1.1.1
value_unmatched command_flag v h = none_match _ v h.1.1.1.1.1
value_unmatched machines_flag v h = none_match _ v h.1.1.1.1.1.1

-- Behind a flag and its value the loop begins a new round.
parse_value :
    (s : Settings) (fs : List Flag) (v : Text) (rest : List Text)
    → matching fs v ≡ none
    → parse s fs (v ∷ rest) ≡ parse s order rest
unfolding parse
parse_value s fs v rest h = rw (h, parse)

parse_end : (s : Settings) → parse s order [] ≡ some s
unfolding parse
parse_end s = refl

-- A flag is followed by its value, which the tests behind the flag's see.
parse_flag :
    (s : Settings) (fs gs : List Flag) (arg v : Text) (x : Flag) (rest : List Text)
    → matching fs arg ≡ some (x, gs)
    → parse s fs (arg ∷ v ∷ rest) ≡ (assign x v s >>= λ t. parse t gs (v ∷ rest))
unfolding parse next_arg
parse_flag s fs gs arg v x rest h = rw (h, parse)

-- Flags with values that are no flags themselves set what they name, in their order.
pub parse-spell :
    (gs : List Given) (s : Settings)
    → All (λ g. IsValue g.value) gs
    → parse s order (spell gs) ≡ assign_all s gs
unfolding spell assign_all
parse-spell [] s h = parse_end s
parse-spell (g ∷ gs) s h =
    let x = flag_of g.spelling in
    let skip = λ (t : Settings).
      parse_value t (behind x) g.value (spell gs) (value_unmatched x g.value h.0) in
    parse_flag s order (behind x) (text_of g.spelling) g.value x (spell gs)
      (matching-flag g.spelling)
    ∙ elim (Option-cases (assign x g.value s)) [
      | inl e ↦ rw e
      | inr (t, e) ↦ rw e (skip t ∙ parse-spell gs t h.1)
    ]
