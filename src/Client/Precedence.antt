-- ===== src/Client/Precedence.antt =====
-- Which value of a setting wins, of those given and that of the environment (main of client.cpp).
use servy.Prelude.{
  ◌≡◌, refl, ap, sym, ◌∙◌, inl, inr, Bool, true, false, zero, suc, Bool-cases, List, ◌∷◌, Option,
  none, some, arith, All, ◌||◌,
}
use mathlib.Core.Path.{subst}
use mathlib.Core.Option.{some-injective}
use servy.Prelude.Int.{ℤ, pos, negsuc}
use servy.Prelude.Text.{Text, codes, str_eq, eq_of_str_eq}
use servy.MachineList.{skip_spaces, digits}
use servy.Client.Arguments.{
  Flag, Settings, unset, safe_getenv, or_env, with_env, bad, stoi, with_run_id, read_arguments,
  goes_on, bails_out, is_unset_id,
}
use servy.Client.Assigned.{
  last_given, Setting, user, dir, simfile, run_cmd, machstr, setting, variable, sets, sets_id,
  or_else, IdIs, HasNumber, setting-assign_all, assign_all_total, assign_all-IdIs, unset-HasNumber,
}
use servy.Client.Spelling.{Given, spell, IsValue, assign_all, parse-spell}

-- The text that stands for a setting: the last one given, or that of the environment.
abbrev pub chosen : (Text → Option Text) → Text → (Flag → Bool) → List Given → Text
chosen getenv var same gs = or_env getenv var (or_else (last_given same gs) bad)

-- The first argument that has `main` read the others.
abbrev pub IsRun : Text → Type 0
IsRun first = (str_eq (codes "-r") first || str_eq (codes "-run") first) ≡ true

read_run :
    (getenv : Text → Option Text) (first : Text) (gs : List Given) (t : Settings)
    → IsRun first
    → All (λ g. IsValue g.value) gs
    → assign_all unset gs ≡ some t
    → read_arguments getenv (first ∷ spell gs) ≡ with_run_id getenv true (with_env getenv t)
unfolding read_arguments
read_run getenv first gs t h hv e = rw (h, parse-spell gs unset hv, e)

setting-with_env :
    (getenv : Text → Option Text) (k : Setting) (gs : List Given) (t : Settings)
    → assign_all unset gs ≡ some t
    → setting k (with_env getenv t) ≡ chosen getenv (variable k) (sets k) gs
unfolding with_env
setting-with_env getenv user gs t h = ap (or_env getenv _) (setting-assign_all user gs unset t h)
setting-with_env getenv dir gs t h = ap (or_env getenv _) (setting-assign_all dir gs unset t h)
setting-with_env getenv simfile gs t h =
    ap (or_env getenv _) (setting-assign_all simfile gs unset t h)
setting-with_env getenv run_cmd gs t h =
    ap (or_env getenv _) (setting-assign_all run_cmd gs unset t h)
setting-with_env getenv machstr gs t h =
    ap (or_env getenv _) (setting-assign_all machstr gs unset t h)

-- What reads as a number is not "BAD".
stoi-bad : stoi bad ≡ none
unfolding stoi skip_spaces digits
stoi-bad = refl

no_number : {A : Type 0} (z : ℤ) → stoi bad ≡ some z → A
no_number z h = absurd (grind (arith, stoi-bad))

not_bad : (v : Text) (z : ℤ) → stoi v ≡ some z → str_eq v bad ≡ false
not_bad v z h = elim (Bool-cases (str_eq v bad)) [
  | inl e ↦ no_number z (ap stoi (sym (eq_of_str_eq v bad e)) ∙ h)
  | inr e ↦ e
]

is_set : (z : ℤ) → ¬ (z ≡ negsuc 0) → is_unset_id z ≡ false
unfolding is_unset_id
is_set (pos n) h = refl
is_set (negsuc zero) h = absurd (h refl)
is_set (negsuc (suc n)) h = ground arith

-- The id after the reading, `o` being the text that the arguments give for it.
id_read :
    (getenv : Text → Option Text) (o : Option Text) (s : Settings) (z : ℤ)
    → IdIs o (negsuc 0) s.id
    → stoi (or_env getenv (codes "RUN_ID") (or_else o bad)) ≡ some z
    → ¬ (z ≡ negsuc 0)
    → with_run_id getenv true s ≡ some (goes_on true (record s { id = z }))
unfolding with_run_id or_env is_unset_id safe_getenv str_eq
id_read getenv none s z e h n = rw (e, not_bad (safe_getenv getenv (codes "RUN_ID")) z h, h)
id_read getenv (some v) s z e h n =
    let kept = not_bad v s.id e in
    let same = some-injective s.id z (sym e ∙ rw kept at h) in rw (same, is_set z n)

setting_kept : (k : Setting) (s : Settings) (z : ℤ) → setting k (record s { id = z }) ≡ setting k s
setting_kept user s z = refl
setting_kept dir s z = refl
setting_kept simfile s z = refl
setting_kept run_cmd s z = refl
setting_kept machstr s z = refl

id_kept : (getenv : Text → Option Text) (s : Settings) → (with_env getenv s).id ≡ s.id
unfolding with_env
id_kept getenv s = refl

no_variable :
    (getenv : Text → Option Text) (var : Text) → getenv var ≡ none → safe_getenv getenv var ≡ bad
unfolding safe_getenv
no_variable getenv var h = rw (h, safe_getenv)

without_id :
    (getenv : Text → Option Text) (s : Settings)
    → s.id ≡ negsuc 0
    → getenv (codes "RUN_ID") ≡ none
    → with_run_id getenv true s ≡ some bails_out
unfolding with_run_id is_unset_id str_eq
without_id getenv s h h' = rw (no_variable getenv (codes "RUN_ID") h', h)

-- The arguments -r or -run, flags with values that are no flags, and a number wherever the id is
-- given, are read without an error, if the last text given for the id, or RUN_ID where none is
-- given, stands for a number but -1: this is the id, and each of the other settings is the last
-- text given for it, or that of its variable in the environment where none or "BAD" is given.
pub read_arguments-chosen :
    (getenv : Text → Option Text) (first : Text) (gs : List Given) (z : ℤ)
    → IsRun first
    → All (λ g. IsValue g.value) gs
    → All HasNumber gs
    → stoi (chosen getenv (codes "RUN_ID") sets_id gs) ≡ some z
    → ¬ (z ≡ negsuc 0)
    → (s : Settings) × (read_arguments getenv (first ∷ spell gs) ≡ some (goes_on true s))
      × (s.id ≡ z)
      × ((k : Setting) → setting k s ≡ chosen getenv (variable k) (sets k) gs)
read_arguments-chosen getenv first gs z h hv hn hz n =
    let (t, e) = assign_all_total gs unset hn in
    (
      record (with_env getenv t) { id = z },
      read_run getenv first gs t h hv e
          ∙ id_read getenv (last_given sets_id gs) (with_env getenv t) z
              (subst (IdIs (last_given sets_id gs) (negsuc 0)) (sym (id_kept getenv t))
                (assign_all-IdIs gs unset t e))
              hz n,
      refl,
      λ k. setting_kept k (with_env getenv t) z ∙ setting-with_env getenv k gs t e,
    )

-- For the arguments -r or -run and flags with values that are no flags, without an id among them and
-- in the environment, main bails out.
pub read_arguments-bails_out :
    (getenv : Text → Option Text) (first : Text) (gs : List Given)
    → IsRun first
    → All (λ g. IsValue g.value) gs
    → last_given sets_id gs ≡ none
    → getenv (codes "RUN_ID") ≡ none
    → read_arguments getenv (first ∷ spell gs) ≡ some bails_out
read_arguments-bails_out getenv first gs h hv hn he =
    let (t, e) = assign_all_total gs unset (unset-HasNumber gs hn) in
    read_run getenv first gs t h hv e
    ∙ without_id getenv (with_env getenv t)
        (id_kept getenv t ∙ subst (λ o. IdIs o (negsuc 0) t.id) hn (assign_all-IdIs gs unset t e))
        he
