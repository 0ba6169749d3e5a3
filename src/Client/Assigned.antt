-- ===== src/Client/Assigned.antt =====
-- What the values given for the flags leave in the settings (main of client.cpp).
use servy.Prelude.{
  ◌≡◌, refl, ap, sym, ◌∙◌, Bool, true, false, List, [], ◌∷◌, Option, none, some, arith, All,
  bound_some, if◌then◌else◌,
}
use mathlib.Core.Option.{some-injective}
use servy.Prelude.Int.{ℤ}
use servy.Prelude.Text.{Text, codes}
use servy.Client.Arguments.{
  Flag, user_flag, dir_flag, id_flag, file_flag, command_flag, machines_flag, Settings, assign,
  stoi,
}
use servy.Client.Spelling.{Given, assign_all, flag_of}

abbrev pub or_else : Option Text → Text → Text
or_else (some v) x = v
or_else none x = x

-- The last value given for a flag.
unfoldable pub last_given : (Flag → Bool) → List Given → Option Text
last_given same [] = none
last_given same (g ∷ gs) = elim (last_given same gs) [
  | some v ↦ some v
  | none ↦ if same (flag_of g.spelling) then some g.value else none
]

-- The settings that are texts, with the variable of the environment for each.
pub data Setting : Type 0 where
  user dir simfile run_cmd machstr : Setting

abbrev pub setting : Setting → Settings → Text
setting user s = s.user
setting dir s = s.dir
setting simfile s = s.simfile
setting run_cmd s = s.run_cmd
setting machstr s = s.machstr

abbrev pub variable : Setting → Text
variable user = codes "USER"
variable dir = codes "PWD"
variable simfile = codes "SIM_NAME"
variable run_cmd = codes "RUN_COMMAND"
variable machstr = codes "MACHINES"

-- Whether a flag is that of a setting.
abbrev pub sets : Setting → Flag → Bool
sets user user_flag = true
sets dir dir_flag = true
sets simfile file_flag = true
sets run_cmd command_flag = true
sets machstr machines_flag = true
sets _ _ = false

setting-assign :
    (k : Setting) (x : Flag) (v : Text) (s t : Settings)
    → assign x v s ≡ some t
    → setting k t ≡ (if sets k x then v else setting k s)
unfolding assign
setting-assign user user_flag v s t h = ground arith
setting-assign _ _ v s t h = ground arith

-- A value for one flag, with the values behind it.
or_else-last_given :
    (same : Flag → Bool) (g : Given) (gs : List Given) (x y : Text)
    → y ≡ (if same (flag_of g.spelling) then g.value else x)
    → or_else (last_given same gs) y ≡ or_else (last_given same (g ∷ gs)) x
unfolding last_given
or_else-last_given same g gs x y h = ground arith

-- The values given are assigned from the first on.
first_assigned :
    (g : Given) (gs : List Given) (s t : Settings)
    → assign_all s (g ∷ gs) ≡ some t
    → (s' : Settings) × (assign (flag_of g.spelling) g.value s ≡ some s')
      × (assign_all s' gs ≡ some t)
unfolding assign_all
first_assigned g gs s t h =
    bound_some (assign (flag_of g.spelling) g.value s) (λ s'. assign_all s' gs) t h

pub setting-assign_all :
    (k : Setting) (gs : List Given) (s t : Settings)
    → assign_all s gs ≡ some t
    → setting k t ≡ or_else (last_given (sets k) gs) (setting k s)
unfolding assign_all last_given
setting-assign_all k [] s t h = ground arith
setting-assign_all k (g ∷ gs) s t h =
    let (s', e, h') = first_assigned g gs s t h in
    setting-assign_all k gs s' t h'
    ∙ or_else-last_given (sets k) g gs (setting k s) (setting k s')
        (setting-assign k (flag_of g.spelling) g.value s s' e)

-- Whether a flag is that of the id.
abbrev pub sets_id : Flag → Bool
sets_id id_flag = true
sets_id _ = false

-- A value given for the id is a number.
abbrev pub HasNumber : Given → Type 0
HasNumber g = sets_id (flag_of g.spelling) ≡ true → (z : ℤ) × stoi g.value ≡ some z

assign_total :
    (x : Flag) (v : Text) (s : Settings)
    → (sets_id x ≡ true → (z : ℤ) × stoi v ≡ some z)
    → (t : Settings) × assign x v s ≡ some t
unfolding assign
assign_total user_flag v s h = (_, refl)
assign_total dir_flag v s h = (_, refl)
assign_total id_flag v s h = (record s { id = (h refl).0 }, rw (h refl).1)
assign_total file_flag v s h = (_, refl)
assign_total command_flag v s h = (_, refl)
assign_total machines_flag v s h = (_, refl)

pub assign_all_total :
    (gs : List Given) (s : Settings) → All HasNumber gs → (t : Settings) × assign_all s gs ≡ some t
unfolding assign_all
assign_all_total [] s h = (s, refl)
assign_all_total (g ∷ gs) s h =
    let (s', e) = assign_total (flag_of g.spelling) g.value s h.0 in
    let (t, e') = assign_all_total gs s' h.1 in (t, rw e e')

-- The id after the values given, `z` being that before them.
abbrev pub IdIs : Option Text → ℤ → ℤ → Type 0
IdIs none z z' = z' ≡ z
IdIs (some v) z z' = stoi v ≡ some z'

abbrev given_here : (Flag → Bool) → Given → Option Text
given_here same g = if same (flag_of g.spelling) then some g.value else none

assign-IdIs :
    (x : Flag) (v : Text) (s t : Settings)
    → assign x v s ≡ some t
    → IdIs (if sets_id x then some v else none) s.id t.id
unfolding assign
assign-IdIs user_flag v s t h = ground arith
assign-IdIs dir_flag v s t h = ground arith
assign-IdIs id_flag v s t h =
    let (z, e, e') = bound_some (stoi v) (λ z. some (record s { id = z })) t h in
    e ∙ ap (λ (t : Settings). some t.id) (some-injective _ _ e')
assign-IdIs file_flag v s t h = ground arith
assign-IdIs command_flag v s t h = ground arith
assign-IdIs machines_flag v s t h = ground arith

IdIs-trans :
    (o here : Option Text) (z z' z'' : ℤ)
    → IdIs here z z'
    → IdIs o z' z''
    → IdIs (elim o [ some v ↦ some v | none ↦ here ]) z z''
IdIs-trans none none z z' z'' h h' = h' ∙ h
IdIs-trans none (some v) z z' z'' h h' = h ∙ ap some (sym h')
IdIs-trans (some w) here z z' z'' h h' = h'

pub assign_all-IdIs :
    (gs : List Given) (s t : Settings)
    → assign_all s gs ≡ some t
    → IdIs (last_given sets_id gs) s.id t.id
unfolding assign_all last_given
assign_all-IdIs [] s t h = ap (λ (t : Settings). t.id) (some-injective _ _ (sym h))
assign_all-IdIs (g ∷ gs) s t h =
    let (s', e, h') = first_assigned g gs s t h in
    IdIs-trans (last_given sets_id gs) (given_here sets_id g) s.id s'.id t.id
      (assign-IdIs (flag_of g.spelling) g.value s s' e) (assign_all-IdIs gs s' t h')

none_given :
    (same : Flag → Bool) (g : Given) (gs : List Given)
    → last_given same (g ∷ gs) ≡ none
    → (same (flag_of g.spelling) ≡ false) × (last_given same gs ≡ none)
unfolding last_given
none_given same g gs h = ground arith

pub unset-HasNumber : (gs : List Given) → last_given sets_id gs ≡ none → All HasNumber gs
unset-HasNumber [] h = tt
unset-HasNumber (g ∷ gs) h =
    let (e, h') = none_given sets_id g gs h in ((λ e'. absurd (cc (e, e'))), unset-HasNumber gs h')
