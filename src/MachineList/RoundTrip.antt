-- ===== src/MachineList/RoundTrip.antt =====
-- `get_machines` on the lists that `get_machine_str` writes (machine.h).
use servy.Prelude.{
  ℕ, ◌^◌, ◌<◌, ◌≡◌, refl, ap, sym, ◌∙◌, true, false, List, [], ◌∷◌, ◌++◌, map, some, arith, ltb,
  ◌==◌, All, All-append, All-mono,
}
use mathlib.Core.Path.{subst}
use mathlib.Core.List.{append-nil, append_assoc}
use servy.Prelude.Int.{pos}
use servy.Prelude.Text.{Text, codes}
use servy.Prelude.Decimal.{
  value, IsDigit, show_ℕ, show_ℤ, show_ℕ-IsDigit, show_ℕ_cons, value-show_ℕ,
}
use servy.Machine.{Machine, new}
use servy.Status.{get_machine_str, machine_list_from}
use servy.MachineList.{
  split, blank_colons, is_space, skip_spaces, take_word, read_word, digits, read_number, read_int,
  machine_of, machines_of, get_machines,
}

-- A character that neither separates machines nor ends a name.
abbrev pub IsPlain : ℕ → Type 0
IsPlain c = (is_space c ≡ false) × ((c == b':') ≡ false) × ((c == b',') ≡ false)

-- A machine that a list can name: the name has characters, all plain, and the size is an `int` that
-- is not negative.
pub record IsNamed (m : Machine) : Type 0 where
  pub first : ℕ
  pub others : Text
  pub named : m.name ≡ first ∷ others
  pub plain : All IsPlain (first ∷ others)
  pub cores : ℕ
  pub sized : m.size ≡ pos cores
  pub small : cores < 2 ^ 31

abbrev IsOther : ℕ → ℕ → Type 0
IsOther delim c = (c == delim) ≡ false

split_last :
    (c delim : ℕ) (s : Text) → All (IsOther delim) (c ∷ s) → split (c ∷ s) delim ≡ (c ∷ s) ∷ []
unfolding split
split_last c delim [] h = rw (h.0)
split_last c delim (d ∷ s) h = rw (h.0, split_last d delim s h.1)

split_item :
    (s t : Text) (delim : ℕ)
    → (delim == delim) ≡ true
    → All (IsOther delim) s
    → split (s ++ delim ∷ t) delim ≡ s ∷ split t delim
unfolding split
split_item [] t delim e h = rw e
split_item (c ∷ s) t delim e h = rw (h.0, split_item s t delim e h.1)

blank_colons-append : (s t : Text) → blank_colons (s ++ t) ≡ blank_colons s ++ blank_colons t
unfolding blank_colons
blank_colons-append [] t = refl
blank_colons-append (c ∷ s) t = rw (blank_colons-append s t)

blank_colons_colon : (s : Text) → blank_colons (b':' ∷ s) ≡ b' ' ∷ blank_colons s
unfolding blank_colons
blank_colons_colon s = refl

blank_colons_other : (s : Text) → All (IsOther b':') s → blank_colons s ≡ s
unfolding blank_colons
blank_colons_other [] h = refl
blank_colons_other (c ∷ s) h = rw (h.0, blank_colons_other s h.1)

take_word_plain : (s t : Text) → All IsPlain s → take_word (s ++ b' ' ∷ t) ≡ (s, b' ' ∷ t)
unfolding take_word
take_word_plain [] t h = refl
take_word_plain (c ∷ s) t h = rw (take_word_plain s t h.1, h.0.0)

skip_spaces_dense : (c : ℕ) (s : Text) → is_space c ≡ false → skip_spaces (c ∷ s) ≡ c ∷ s
unfolding skip_spaces
skip_spaces_dense c s h = rw h

skip_spaces_blank : (s : Text) → skip_spaces (b' ' ∷ s) ≡ skip_spaces s
unfolding skip_spaces
skip_spaces_blank s = refl

read_word_plain :
    (c : ℕ) (s t : Text)
    → All IsPlain (c ∷ s)
    → read_word (c ∷ s ++ b' ' ∷ t) ≡ some (c ∷ s, b' ' ∷ t)
unfolding read_word
read_word_plain c s t h =
    rw (skip_spaces_dense c (s ++ b' ' ∷ t) h.0.0, take_word_plain (c ∷ s) t h)

digits-All : (s : Text) → All IsDigit s → digits s ≡ s
unfolding digits
digits-All [] h = refl
digits-All (c ∷ s) h = ground (arith, digits-All s h.1)

read_number_digits :
    (c : ℕ) (s : Text)
    → All IsDigit (c ∷ s)
    → value 0 (c ∷ s) < 2 ^ 31
    → read_number c s ≡ pos (value 0 (c ∷ s))
unfolding read_number
read_number_digits c s h k =
    let minus : (c == b'-') ≡ false = ground arith in
    let plus : (c == b'+') ≡ false = ground arith in
    let fits : ltb (value 0 (c ∷ s)) (2 ^ 31) ≡ true = ground arith in
    rw (minus, plus, digits-All (c ∷ s) h, fits)

read_int_digits :
    (c : ℕ) (s : Text)
    → All IsDigit (c ∷ s)
    → value 0 (c ∷ s) < 2 ^ 31
    → read_int (b' ' ∷ c ∷ s) ≡ some (pos (value 0 (c ∷ s)))
unfolding read_int
read_int_digits c s h k =
    let dense : is_space c ≡ false = ground arith in
    rw (skip_spaces_blank (c ∷ s), skip_spaces_dense c s dense, read_number_digits c s h k)

read_int-show_ℕ : (n : ℕ) → n < 2 ^ 31 → read_int (b' ' ∷ show_ℕ n) ≡ some (pos n)
read_int-show_ℕ n h =
    let (c, s, e) = show_ℕ_cons n in
    let whole : value 0 (c ∷ s) ≡ n = ap (value 0) (sym e) ∙ value-show_ℕ n in
    let all : All IsDigit (c ∷ s) = subst (λ t. All IsDigit t) e (show_ℕ-IsDigit n) in
    rw (e, read_int_digits c s all (rw whole h), whole)

-- One item of the list.
abbrev item : Text → ℕ → Text
item name n = name ++ b':' ∷ show_ℕ n

digit-IsOther : (c d : ℕ) → IsDigit c → ltb 57 d ≡ true → IsOther d c
digit-IsOther c d h k = ground arith

comma-IsOther : (c : ℕ) → IsDigit c → IsOther b',' c
comma-IsOther c h = ground arith

machine_of-item :
    (c : ℕ) (s : Text) (n : ℕ)
    → All IsPlain (c ∷ s)
    → n < 2 ^ 31
    → machine_of (item (c ∷ s) n) ≡ some (new (c ∷ s) (pos n))
unfolding machine_of
machine_of-item c s n h k =
    let blank : blank_colons (item (c ∷ s) n) ≡ c ∷ s ++ b' ' ∷ show_ℕ n =
      blank_colons-append (c ∷ s) (b':' ∷ show_ℕ n)
      ∙ rw
          (
            blank_colons_other (c ∷ s) (All-mono IsPlain (IsOther b':') (c ∷ s) (λ _ p. p.1) h),
            blank_colons_colon (show_ℕ n),
            blank_colons_other (show_ℕ n) (
                All-mono IsDigit (IsOther b':') (show_ℕ n) (λ d p. digit-IsOther d b':' p refl)
                  (show_ℕ-IsDigit n)),
          )
          refl in
    rw (blank, read_word_plain c s (show_ℕ n) h, read_int-show_ℕ n k)

item-IsOther : (s : Text) (n : ℕ) → All IsPlain s → All (IsOther b',') (item s n)
item-IsOther s n h =
    All-append (IsOther b',') s (b':' ∷ show_ℕ n) (All-mono IsPlain (IsOther b',') s (λ _ p. p.2) h)
      (refl, All-mono IsDigit (IsOther b',') (show_ℕ n) comma-IsOther (show_ℕ-IsDigit n))

-- What the loop of `get_machine_str` writes of a machine.
entry : Machine → Text
entry m = m.name ++ codes ":" ++ show_ℤ m.size

show_ℤ_pos : (n : ℕ) → show_ℤ (pos n) ≡ show_ℕ n
unfolding show_ℤ
show_ℤ_pos n = refl

entry-item : (m : Machine) (v : IsNamed m) → entry m ≡ item (v.first ∷ v.others) v.cores
unfolding entry
entry-item m v =
    rw (v.named, v.sized, show_ℤ_pos v.cores)
      (ap (λ t. v.first ∷ t) (append_assoc v.others (codes ":") (show_ℕ v.cores)))

machines_of-entry :
    (ms : List Machine)
    → All IsNamed ms
    → machines_of (map entry ms) ≡ some (map (λ m. new m.name m.size) ms)
unfolding machines_of
machines_of-entry [] h = refl
machines_of-entry (m ∷ ms) h = rw (
  entry-item m h.0,
  machine_of-item h.0.first h.0.others h.0.cores h.0.plain h.0.small,
  machines_of-entry ms h.1,
  h.0.named,
  h.0.sized,
)

split_entries :
    (m : Machine) (ms : List Machine)
    → IsNamed m
    → All IsNamed ms
    → split (entry m ++ machine_list_from false ms) b',' ≡ entry m ∷ map entry ms
unfolding machine_list_from entry split
split_entries m [] v h = rw (
  append-nil (entry m),
  entry-item m v,
  split_last v.first b',' (v.others ++ b':' ∷ show_ℕ v.cores)
      (item-IsOther (v.first ∷ v.others) v.cores v.plain),
)
split_entries m (m' ∷ ms) v h =
    split_item (entry m) (entry m' ++ machine_list_from false ms) b',' refl
      (rw (entry-item m v) (item-IsOther (v.first ∷ v.others) v.cores v.plain))
    ∙ rw (split_entries m' ms h.0 h.1)

machine_list_from-entry :
    (m : Machine) (ms : List Machine)
    → machine_list_from true (m ∷ ms) ≡ entry m ++ machine_list_from false ms
unfolding machine_list_from entry
machine_list_from-entry m ms = refl

machines_of_list :
    (ms : List Machine)
    → All IsNamed ms
    → machines_of (split (machine_list_from true ms) b',') ≡ some (map (λ m. new m.name m.size) ms)
unfolding machine_list_from split machines_of
machines_of_list [] h = refl
machines_of_list (m ∷ ms) h =
    ap (λ t. machines_of (split t b',')) (machine_list_from-entry m ms)
    ∙ ap machines_of (split_entries m ms h.0 h.1)
    ∙ machines_of-entry (m ∷ ms) h

-- A list of machines with names of plain characters and sizes from 0 below 2^31 that
-- `get_machine_str` writes is read by `get_machines` as these machines, all of their cores free.
pub get_machines-get_machine_str :
    (ms : List Machine)
    → All IsNamed ms
    → get_machines (get_machine_str ms) ≡ some (map (λ m. new m.name m.size) ms)
unfolding get_machines get_machine_str
get_machines-get_machine_str ms h = machines_of_list ms h
