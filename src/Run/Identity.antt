-- ===== src/Run/Identity.antt =====
-- run.h: which runs `operator==` takes for one.
use servy.Prelude.{
  ℕ, zero, suc, ◌-◌, ◌≡◌, ◌↔◌, ◌≢◌, refl, ap, sym, ◌∙◌, true, List, [], ◌∷◌, ◌++◌, arith, All,
  length, All-mono,
}
use servy.Prelude.Int.{ℤ, pos, negsuc}
use servy.Prelude.Text.{Text, eq_of_str_eq, str_eq_refl}
use servy.Prelude.Decimal.{
  show_ℤ, show_ℕ, show_ℕ-IsDigit, IsDigit, set_width, fill, read_padded, read_padded-set_width,
}
use servy.Machine.{Machine}
use servy.Run.{new, run_eq, xid_of}

abbrev IsPlain : ℕ → Type 0
IsPlain c = c ≢ b'_'

fill-IsPlain : (n : ℕ) (s : Text) → All IsPlain s → All IsPlain (fill n 48 s)
unfolding fill
fill-IsPlain zero s h = h
fill-IsPlain (suc n) s h = (omega arith, fill-IsPlain n s h)

show_ℤ-IsPlain : (i : ℤ) → All IsPlain (show_ℤ i)
unfolding show_ℤ
show_ℤ-IsPlain (pos n) = All-mono IsDigit IsPlain (show_ℕ n) (λ c h. omega arith) (show_ℕ-IsDigit n)
show_ℤ-IsPlain (negsuc n) = (
  omega arith,
  All-mono IsDigit IsPlain (show_ℕ (suc n)) (λ c h. omega arith) (show_ℕ-IsDigit (suc n)),
)

padded-IsPlain : (w : ℕ) (i : ℤ) → All IsPlain (set_width w 48 (show_ℤ i))
unfolding set_width
padded-IsPlain w i = fill-IsPlain (w - length (show_ℤ i)) (show_ℤ i) (show_ℤ-IsPlain i)

not-IsPlain : (v q : Text) → ¬ (All IsPlain (v ++ b'_' ∷ q))
not-IsPlain [] q h = h.0 refl
not-IsPlain (b ∷ v) q h = not-IsPlain v q h.1

head_eq : {a b : ℕ} {s t : Text} → ◌≡◌ {A = Text} (a ∷ s) (b ∷ t) → a ≡ b
head_eq h = cc

tail_eq : {a b : ℕ} {s t : Text} → ◌≡◌ {A = Text} (a ∷ s) (b ∷ t) → s ≡ t
tail_eq h = cc

-- The last underscore splits a text in one way.
split_last :
    (u v p q : Text)
    → All IsPlain p
    → All IsPlain q
    → u ++ b'_' ∷ p ≡ v ++ b'_' ∷ q
    → (u ≡ v) × (p ≡ q)
split_last [] [] p q hp hq e = (refl, tail_eq e)
split_last [] (b ∷ v) p q hp hq e = absurd (not-IsPlain v q (rw (tail_eq e) at hp))
split_last (a ∷ u) [] p q hp hq e = absurd (not-IsPlain u p (rw (← tail_eq e) at hq))
split_last (a ∷ u) (b ∷ v) p q hp hq e =
    let (eu, ep) = split_last u v p q hp hq (tail_eq e) in (cc (eu, head_eq e), ep)

-- The extended id determines the user and the id, also where the user's name has underscores and
-- where the id is negative or has more than five digits.
pub xid_of-injective : (u v : Text) (i j : ℤ) → xid_of u i ≡ xid_of v j → (u ≡ v) × (i ≡ j)
unfolding xid_of
xid_of-injective u v i j e =
    let (eu, ep) = split_last u v _ _ (padded-IsPlain 5 i) (padded-IsPlain 5 j) e in
    (eu, sym (read_padded-set_width 5 i) ∙ ap read_padded ep ∙ read_padded-set_width 5 j)

-- Whatever else they carry, two runs that the constructor built are equal to `operator==` exactly
-- when they have the same user and the same id.
pub run_eq_iff :
    (u v : Text) (i j : ℤ) (dir dir' sim sim' cmd cmd' : Text) (ms ms' : List Machine)
    → (run_eq (new u i dir sim cmd ms) (new v j dir' sim' cmd' ms') ≡ true) ↔ ((u ≡ v) × (i ≡ j))
unfolding run_eq
run_eq_iff u v i j dir dir' sim sim' cmd cmd' ms ms' = (
  λ h. xid_of-injective u v i j (eq_of_str_eq (xid_of u i) (xid_of v j) h),
  λ h. rw (h.0, h.1) (str_eq_refl (xid_of v j)),
)
