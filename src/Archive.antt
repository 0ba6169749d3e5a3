-- ===== src/Archive.antt =====
-- The serialised texts (net_common.h, SimpleServer.cpp). The Boost archives are a parameter: what
-- they write of a value, and what they read from a text, or `none` where they throw. The file through
-- which the source passes each text to the reader gives the text back.
pub mod Version
pub mod Serial
pub mod Saved
use servy.Prelude.{List, [], ◌∷◌, ◌++◌, Option, none, some, ◌==◌, if◌then◌else◌}
use servy.Prelude.Text.{Text, codes}
use servy.Machine.{Machine}
use servy.Run.{Run}

pub record Archive : Type 0 where
  pub save_run : Run → Text
  pub load_run : Text → Option Run
  pub save_machine : Machine → Text
  pub load_machine : Text → Option Machine
  pub save_astr : Text → Text
  pub load_astr : Text → Option Text

-- The rest of a text behind a prefix.
unfoldable pub after_prefix : Text → Text → Option Text
after_prefix [] s = some s
after_prefix (p ∷ pat) [] = none
after_prefix (p ∷ pat) (c ∷ s) = let rest = after_prefix pat s in if p == c then rest else none

-- `ss.find(pat)` and `ss.replace(found, pat.length(), by)`: the first occurrence, if there is one
unfoldable pub replace_first : Text → Text → Text → Text
replace_first pat by [] = elim (after_prefix pat []) [ some rest ↦ by ++ rest | none ↦ [] ]
replace_first pat by (c ∷ s) = elim (after_prefix pat (c ∷ s)) [
  | some rest ↦ by ++ rest
  | none ↦ c ∷ replace_first pat by s
]

-- "replace archive 17 with archive 16"
unfoldable pub fix_version : Text → Text
fix_version ss = replace_first (codes "archive 17") (codes "archive 16") ss
