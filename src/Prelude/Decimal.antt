-- ===== src/Prelude/Decimal.antt =====
-- The decimal text of a number, as `std::ostream << int` and `std::to_string` write it.
use servy.Prelude.{
  ℕ, zero, suc, ◌+◌, ◌-◌, ◌*◌, ◌/◌, ◌%◌, ◌≤◌, ◌<◌, ◌≡◌, refl, ◌∙◌, ap, inl, inr, [], ◌∷◌, arith,
  ltb, ◌==◌, if◌then◌else◌, Bool-cases, All, length,
}
use servy.Prelude.Int.{ℤ, pos, negsuc}
use servy.Prelude.Text.{Text}

-- The digits of `n` before `acc`. `n + 1` rounds are enough, since each divides `n` by ten.
digits_before : ℕ → ℕ → Text → Text
digits_before zero n acc = acc
digits_before (suc fuel) n acc =
    let rest = digits_before fuel (n / 10) ((48 + n % 10) ∷ acc) in
    if ltb n 10 then (48 + n) ∷ acc else rest

unfoldable pub show_ℕ : ℕ → Text
unfolding digits_before
show_ℕ n = digits_before (suc n) n []

unfoldable pub show_ℤ : ℤ → Text
show_ℤ (pos n) = show_ℕ n
show_ℤ (negsuc n) = b'-' ∷ show_ℕ (suc n)

-- The number that a text of digits stands for, read on from `acc`.
unfoldable pub value : ℕ → Text → ℕ
value acc [] = acc
value acc (c ∷ s) = value (acc * 10 + (c - 48)) s

abbrev pub IsDigit : ℕ → Type 0
IsDigit c = (48 ≤ c) × (c ≤ 57)

value-digits_before :
    (fuel n : ℕ) (acc : Text) → n < fuel → value 0 (digits_before fuel n acc) ≡ value n acc
unfolding digits_before value
value-digits_before zero n acc h = absurd (omega arith)
value-digits_before (suc fuel) n acc h = elim (Bool-cases (ltb n 10)) [
  | inl small ↦ rw small (ap (λ k. value k acc) (omega arith))
  | inr large ↦ rw large (
      value-digits_before fuel (n / 10) ((48 + n % 10) ∷ acc) (ground arith)
      ∙ ap (λ k. value k acc) (omega arith))
]

-- Reading the digits of a number gives the number.
pub value-show_ℕ : (n : ℕ) → value 0 (show_ℕ n) ≡ n
unfolding show_ℕ value
value-show_ℕ n = value-digits_before (suc n) n [] (omega arith)

digits_before-IsDigit :
    (fuel n : ℕ) (acc : Text) → All IsDigit acc → All IsDigit (digits_before fuel n acc)
unfolding digits_before
digits_before-IsDigit zero n acc h = h
digits_before-IsDigit (suc fuel) n acc h = elim (Bool-cases (ltb n 10)) [
  | inl small ↦ rw small ((omega arith, ground arith), h)
  | inr large ↦
      rw large
        (digits_before-IsDigit fuel (n / 10) ((48 + n % 10) ∷ acc) ((omega arith, omega arith), h))
]

pub show_ℕ-IsDigit : (n : ℕ) → All IsDigit (show_ℕ n)
unfolding show_ℕ
show_ℕ-IsDigit n = digits_before-IsDigit (suc n) n [] tt

digits_before_cons :
    (fuel n c : ℕ) (acc : Text) → (d : ℕ) × (s : Text) × (digits_before fuel n (c ∷ acc) ≡ d ∷ s)
unfolding digits_before
digits_before_cons zero n c acc = (c, acc, refl)
digits_before_cons (suc fuel) n c acc = elim (Bool-cases (ltb n 10)) [
  | inl small ↦ rw small (48 + n, c ∷ acc, refl)
  | inr large ↦ rw large (digits_before_cons fuel (n / 10) (48 + n % 10) (c ∷ acc))
]

-- A number has a first digit.
pub show_ℕ_cons : (n : ℕ) → (d : ℕ) × (s : Text) × (show_ℕ n ≡ d ∷ s)
unfolding show_ℕ digits_before
show_ℕ_cons n = elim (Bool-cases (ltb n 10)) [
  | inl small ↦ rw small (48 + n, [], refl)
  | inr large ↦ rw large (digits_before_cons n (n / 10) (48 + n % 10) [])
]

-- std::setw(w) << std::setfill(c): `c` before the text, up to `w` characters.
unfoldable pub fill : ℕ → ℕ → Text → Text
fill zero c s = s
fill (suc n) c s = c ∷ fill n c s

unfoldable pub set_width : ℕ → ℕ → Text → Text
unfolding fill
set_width w c s = fill (w - length s) c s

-- The integer that a text of leading zeros, a sign and digits stands for.
pub read_padded : Text → ℤ
read_padded [] = pos 0
read_padded (c ∷ s) =
    let n = value 0 s in
    if c == b'-' then negsuc (n - 1) else if c == b'0' then read_padded s else pos (value 0 (c ∷ s))

read_padded_digits : (s : Text) → All IsDigit s → read_padded s ≡ pos (value 0 s)
unfolding read_padded value
read_padded_digits [] h = refl
read_padded_digits (c ∷ s) h = ground (arith, read_padded_digits s h.1)

read_padded-fill : (n : ℕ) (s : Text) → read_padded (fill n 48 s) ≡ read_padded s
unfolding read_padded fill
read_padded-fill zero s = refl
read_padded-fill (suc n) s = read_padded-fill n s

read_padded_minus : (s : Text) → read_padded (b'-' ∷ s) ≡ negsuc (value 0 s - 1)
unfolding read_padded
read_padded_minus s = refl

read_padded-show_ℤ : (i : ℤ) → read_padded (show_ℤ i) ≡ i
unfolding show_ℤ
read_padded-show_ℤ (pos n) =
    read_padded_digits (show_ℕ n) (show_ℕ-IsDigit n) ∙ ap pos (value-show_ℕ n)
read_padded-show_ℤ (negsuc n) =
    read_padded_minus (show_ℕ (suc n)) ∙ ap negsuc (omega (arith, value-show_ℕ (suc n)))

-- Padding an integer with zeros keeps it readable.
pub read_padded-set_width : (w : ℕ) (i : ℤ) → read_padded (set_width w 48 (show_ℤ i)) ≡ i
unfolding set_width
read_padded-set_width w i =
    read_padded-fill (w - length (show_ℤ i)) (show_ℤ i) ∙ read_padded-show_ℤ i
