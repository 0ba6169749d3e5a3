-- ===== src/Archive/Version.antt =====
-- What the replacement of the archive version does to a text (SimpleServer.cpp).
use servy.Prelude.{
  ℕ, suc, ◌≤◌, ◌≡◌, ◌≢◌, refl, ap, inl, inr, [], ◌∷◌, ◌++◌, none, some, arith, length, Option-cases,
}
use servy.Prelude.Text.{Text}
use servy.Archive.{after_prefix, replace_first}

after_prefix-some : (pat s rest : Text) → after_prefix pat s ≡ some rest → s ≡ pat ++ rest
unfolding after_prefix
after_prefix-some [] s rest h = cc
after_prefix-some (p ∷ pat) [] rest h = cc
after_prefix-some (p ∷ pat) (c ∷ s) rest h = ground (arith, after_prefix-some pat s rest)

after_prefix-append : (pat rest : Text) → after_prefix pat (pat ++ rest) ≡ some rest
unfolding after_prefix
after_prefix-append [] rest = refl
after_prefix-append (p ∷ pat) rest = ground (arith, after_prefix-append pat rest)

-- The first occurrence of `pat` in `s`, if there is one, has become `by`, and nothing else has changed.
pub data ReplacedFirst (pat by s r : Text) : Type 0 where
  absent : ((pre post : Text) → s ≢ pre ++ (pat ++ post)) → r ≡ s → ReplacedFirst pat by s r
  replaced :
      (pre post : Text)
      → s ≡ pre ++ (pat ++ post)
      → ((pre' post' : Text) → s ≡ pre' ++ (pat ++ post') → length pre ≤ length pre')
      → r ≡ pre ++ (by ++ post)
      → ReplacedFirst pat by s r

tail_eq : {a b : ℕ} {s t : Text} → ◌≡◌ {A = Text} (a ∷ s) (b ∷ t) → s ≡ t
tail_eq h = cc

-- An occurrence behind the first character is one in the rest.
shifted :
    (c : ℕ) (pat s pre post : Text)
    → after_prefix pat (c ∷ s) ≡ none
    → c ∷ s ≡ pre ++ (pat ++ post)
    → (pre' : Text) × (s ≡ pre' ++ (pat ++ post)) × (length pre ≡ suc (length pre'))
shifted c pat s [] post miss e = absurd (cc (ap (after_prefix pat) e, after_prefix-append pat post))
shifted c pat s (b ∷ pre) post miss e = (pre, tail_eq e, refl)

ReplacedFirst-cons :
    (c : ℕ) (pat by s r : Text)
    → after_prefix pat (c ∷ s) ≡ none
    → ReplacedFirst pat by s r
    → ReplacedFirst pat by (c ∷ s) (c ∷ r)
ReplacedFirst-cons c pat by s r miss (absent h e) =
    absent (λ pre post q. let (pre', q', _) = shifted c pat s pre post miss q in h pre' post q')
      (ap (◌∷◌ c) e)
ReplacedFirst-cons c pat by s r miss (replaced pre post p h e) =
    replaced (c ∷ pre) post (ap (◌∷◌ c) p)
      (λ pre' post' q.
        let (rest, q', n) = shifted c pat s pre' post' miss q in
        let least = h rest post' q' in omega arith)
      (ap (◌∷◌ c) e)

nil_only :
    (pat pre post : Text) → after_prefix pat [] ≡ none → ◌≢◌ {A = Text} [] (pre ++ (pat ++ post))
nil_only pat [] post miss e = cc (after_prefix-append pat post)
nil_only pat (b ∷ pre) post miss e = cc

-- `replace_first` meets its specification on every text.
pub replace_first-ReplacedFirst :
    (pat by s : Text) → ReplacedFirst pat by s (replace_first pat by s)
unfolding replace_first
replace_first-ReplacedFirst pat by [] = elim (Option-cases (after_prefix pat [])) [
  | inl e ↦ rw (e, replace_first) (absent (λ pre post. nil_only pat pre post e) refl)
  | inr (rest, e) ↦
      rw (e, replace_first)
        (replaced [] rest (after_prefix-some pat [] rest e) (λ pre' post' q. omega arith) refl)
]
replace_first-ReplacedFirst pat by (c ∷ s) = elim (Option-cases (after_prefix pat (c ∷ s))) [
  | inl e ↦
      rw (e, replace_first)
        (ReplacedFirst-cons c pat by s _ e (replace_first-ReplacedFirst pat by s))
  | inr (rest, e) ↦
      rw (e, replace_first)
        (replaced [] rest (after_prefix-some pat (c ∷ s) rest e) (λ pre' post' q. omega arith) refl)
]
