-- ===== src/Run/Order.antt =====
-- The other comparisons of run.h, which compare the extended ids as byte strings.
use servy.Prelude.{
  ◌≡◌, refl, ap, sym, ◌∙◌, ◌⊎◌, inl, inr, Bool, true, false, not, ◌||◌, ◌&&◌, [], ◌∷◌, arith, ltb,
  if◌then◌else◌,
}
use servy.Prelude.Text.{Text, str_eq}
use servy.Run.{Run, run_eq}

-- The sign of `compare`.
pub data Sign : Type 0 where
  less equal greater : Sign

-- std::string::compare
unfoldable pub compare : Text → Text → Sign
compare [] [] = equal
compare [] (b ∷ t) = less
compare (a ∷ s) [] = greater
compare (a ∷ s) (b ∷ t) =
    let rest = compare s t in if ltb a b then less else if ltb b a then greater else rest

abbrev is_less : Sign → Bool
is_less less = true
is_less _ = false

abbrev is_greater : Sign → Bool
is_greater greater = true
is_greater _ = false

abbrev is_equal : Sign → Bool
is_equal equal = true
is_equal _ = false

-- operator!=, operator<, operator>, operator<= and operator>=
unfoldable pub run_ne : Run → Run → Bool
run_ne lhs rhs = not (is_equal (compare lhs.xid rhs.xid))

unfoldable pub run_lt : Run → Run → Bool
run_lt lhs rhs = is_less (compare lhs.xid rhs.xid)

unfoldable pub run_gt : Run → Run → Bool
run_gt lhs rhs = is_greater (compare lhs.xid rhs.xid)

unfoldable pub run_le : Run → Run → Bool
run_le lhs rhs = not (is_greater (compare lhs.xid rhs.xid))

unfoldable pub run_ge : Run → Run → Bool
run_ge lhs rhs = not (is_less (compare lhs.xid rhs.xid))

abbrev opposite : Sign → Sign
opposite less = greater
opposite equal = equal
opposite greater = less

compare-opposite : (s t : Text) → compare t s ≡ opposite (compare s t)
unfolding compare
compare-opposite [] [] = refl
compare-opposite [] (b ∷ t) = refl
compare-opposite (a ∷ s) [] = refl
compare-opposite (a ∷ s) (b ∷ t) = ground (arith, compare-opposite s t)

compare-str_eq : (s t : Text) → is_equal (compare s t) ≡ str_eq s t
unfolding compare str_eq
compare-str_eq [] [] = refl
compare-str_eq [] (b ∷ t) = refl
compare-str_eq (a ∷ s) [] = refl
compare-str_eq (a ∷ s) (b ∷ t) = ground (arith, compare-str_eq s t)

compare_trans : (s t u : Text) → compare s t ≡ less → compare t u ≡ less → compare s u ≡ less
unfolding compare
compare_trans [] [] u h k = cc
compare_trans [] (b ∷ t) [] h k = cc
compare_trans [] (b ∷ t) (c ∷ u) h k = refl
compare_trans (a ∷ s) [] u h k = cc
compare_trans (a ∷ s) (b ∷ t) [] h k = cc
compare_trans (a ∷ s) (b ∷ t) (c ∷ u) h k = ground (arith, compare_trans s t u)

not_greater : (c : Sign) → not (is_greater c) ≡ (is_less c || is_equal c)
not_greater less = refl
not_greater equal = refl
not_greater greater = refl

greater_opposite : (c : Sign) → is_greater c ≡ is_less (opposite c)
greater_opposite less = refl
greater_opposite equal = refl
greater_opposite greater = refl

not_less_opposite : (c : Sign) → not (is_less c) ≡ not (is_greater (opposite c))
not_less_opposite less = refl
not_less_opposite equal = refl
not_less_opposite greater = refl

one_of : (c : Sign) → (is_less c || (is_equal c || is_less (opposite c))) ≡ true
one_of less = refl
one_of equal = refl
one_of greater = refl

abbrev pub implies : Bool → Bool → Bool
implies b c = not b || c

equal_not_less : (c : Sign) → implies (is_equal c) (not (is_less c)) ≡ true
equal_not_less less = refl
equal_not_less equal = refl
equal_not_less greater = refl

less_of : (c : Sign) → (c ≡ less) ⊎ (is_less c ≡ false)
less_of less = inl refl
less_of equal = inr refl
less_of greater = inr refl

less_trans :
    (s t u : Text)
    → implies (is_less (compare s t) && is_less (compare t u)) (is_less (compare s u)) ≡ true
less_trans s t u = elim (less_of (compare s t)) [
  | inr e ↦ rw e refl
  | inl e ↦ elim (less_of (compare t u)) [
    | inr k ↦ rw (e, k) refl
    | inl k ↦ rw (e, k, compare_trans s t u e k) refl
  ]
]

-- The comparisons agree with operator== and with each other: they are those of a strict total order
-- on the extended ids.
pub run_ordered :
    (x y z : Run)
    → (run_ne x y ≡ not (run_eq x y))
      × (run_gt x y ≡ run_lt y x)
      × (run_le x y ≡ (run_lt x y || run_eq x y))
      × (run_ge x y ≡ run_le y x)
      × ((run_lt x y || (run_eq x y || run_lt y x)) ≡ true)
      × (implies (run_eq x y) (not (run_lt x y)) ≡ true)
      × (implies (run_lt x y && run_lt y z) (run_lt x z) ≡ true)
unfolding run_ne run_gt run_lt run_le run_ge run_eq
run_ordered x y z = (
  ap not (compare-str_eq x.xid y.xid),
  greater_opposite (compare x.xid y.xid) ∙ ap is_less (sym (compare-opposite x.xid y.xid)),
  not_greater (compare x.xid y.xid)
      ∙ ap (λ e. is_less (compare x.xid y.xid) || e) (compare-str_eq x.xid y.xid),
  not_less_opposite (compare x.xid y.xid)
      ∙ ap (λ c. not (is_greater c)) (sym (compare-opposite x.xid y.xid)),
  rw (← compare-str_eq x.xid y.xid, compare-opposite x.xid y.xid) (one_of (compare x.xid y.xid)),
  rw (← compare-str_eq x.xid y.xid) (equal_not_less (compare x.xid y.xid)),
  less_trans x.xid y.xid z.xid,
)
