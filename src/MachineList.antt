-- ===== src/MachineList.antt =====
-- The list of machines that a user names, "thor:60,loki:40": `split` of net_common.h and
-- `get_machines` of machine.h, with what `operator>>` of a `std::stringstream` does in the C locale.
-- `none` is the use of a number that `operator>>` did not write.
pub mod RoundTrip
pub mod Bounds
use servy.Prelude.{
  ◌>>=◌, ℕ, ◌-◌, ◌^◌, Bool, true, false, ◌&&◌, ◌||◌, List, [], ◌∷◌, Option, none, some, ltb, leb,
  ◌==◌, if◌then◌else◌,
}
use servy.Prelude.Int.{ℤ, pos, negsuc, ◌-ℤ◌}
use servy.Prelude.Text.{Text}
use servy.Prelude.Decimal.{value}
use servy.Machine.{Machine, new}

-- A character before the items of the rest: it belongs to the first of them.
abbrev pub before : ℕ → List Text → List Text
before c [] = (c ∷ []) ∷ []
before c (item ∷ items) = (c ∷ item) ∷ items

-- split: `std::getline` gives no item for a text that has ended.
unfoldable pub split : Text → ℕ → List Text
split [] delim = []
split (c ∷ s) delim = let rest = split s delim in if c == delim then [] ∷ rest else before c rest

-- The loop over the characters of an item of `get_machines`.
unfoldable pub blank_colons : Text → Text
blank_colons [] = []
blank_colons (ch ∷ s) = (if ch == b':' then b' ' else ch) ∷ blank_colons s

abbrev pub is_space : ℕ → Bool
is_space c = (c == b' ') || (leb 9 c && leb c 13)

unfoldable pub skip_spaces : Text → Text
skip_spaces [] = []
skip_spaces (c ∷ s) = let rest = skip_spaces s in if is_space c then rest else c ∷ s

-- The characters before the next space, and those from it on.
unfoldable pub take_word : Text → Text × Text
take_word [] = ([], [])
take_word (c ∷ s) =
    let (word, rest) = take_word s in if is_space c then ([], c ∷ s) else (c ∷ word, rest)

-- `ss >> name`: without a word the stream fails.
abbrev pub first_word : Text → Option (Text × Text)
first_word [] = none
first_word (c ∷ s) = some (take_word (c ∷ s))

unfoldable pub read_word : Text → Option (Text × Text)
read_word s = first_word (skip_spaces s)

unfoldable pub digits : Text → Text
digits [] = []
digits (c ∷ s) = let rest = digits s in if leb 48 c && leb c 57 then c ∷ rest else []

-- The greatest and the least `int` are what is read in place of a number out of range.
abbrev pub at_most_max : ℕ → ℤ
at_most_max n = if ltb n (2 ^ 31) then pos n else pos (2 ^ 31 - 1)

abbrev pub at_least_min : ℕ → ℤ
at_least_min n = if leb n (2 ^ 31) then pos 0 -ℤ pos n else pos 0 -ℤ pos (2 ^ 31)

-- The number after the spaces, 0 if there are no digits.
unfoldable pub read_number : ℕ → Text → ℤ
read_number c s =
    if c == b'-'
    then at_least_min (value 0 (digits s))
    else if c == b'+'
    then at_most_max (value 0 (digits s))
    else at_most_max (value 0 (digits (c ∷ s)))

-- `ss >> numcores`: at the end of the stream the variable is not written.
abbrev pub first_int : Text → Option ℤ
first_int [] = none
first_int (c ∷ s) = some (read_number c s)

unfoldable pub read_int : Text → Option ℤ
read_int s = first_int (skip_spaces s)

-- One item of `get_machines`.
unfoldable pub machine_of : Text → Option Machine
machine_of s = do
  (name, ss) ← read_word (blank_colons s)
  numcores ← read_int ss
  some (new name numcores)

-- The loop over the items.
unfoldable pub machines_of : List Text → Option (List Machine)
machines_of [] = some []
machines_of (s ∷ vs) = do m ← machine_of s; result ← machines_of vs; some (m ∷ result)

unfoldable pub get_machines : Text → Option (List Machine)
get_machines mstring = machines_of (split mstring b',')

-- fget_machines, of what the file holds: the first word of the file is the list.
unfoldable pub fget_machines : Text → Option (List Machine)
fget_machines file = elim (read_word file) [
  | some (mstring, rest) ↦ get_machines mstring
  | none ↦ get_machines []
]
