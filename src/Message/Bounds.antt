-- ===== src/Message/Bounds.antt =====
-- Where the reads of a message leave its body (pop_str of SimpleServer.cpp).
use servy.Prelude.{
  ℕ, zero, suc, ◌+◌, ◌-◌, ◌^◌, ◌≤◌, ◌<◌, ◌≡◌, refl, List, [], ◌∷◌, none, some, arith, length, inl,
  inr, Option-cases,
}
use servy.Prelude.Text.{Text}
use servy.Message.{Message, push, pop, split_at, to_bytes}
use servy.Message.Strings.{pop_chars, push_str, pop_str, strcpy}
use servy.Message.RoundTrip.{IsSized, pop-push₂, of_bytes-to_bytes₂}

length-split_at : (i : ℕ) (xs : List ℕ) → i ≤ length xs → length (split_at i xs).0 ≡ i
unfolding split_at
length-split_at zero xs h = refl
length-split_at (suc i) [] h = absurd (omega arith)
length-split_at (suc i) (x ∷ xs) h = omega (arith, length-split_at i xs)

-- What `>>` leaves of the body.
length-pop :
    (msg : Message) (n : ℕ) (bytes : List ℕ) (msg' : Message)
    → pop msg n ≡ some (bytes, msg')
    → length msg'.body + n ≡ length msg.body
unfolding pop
length-pop msg n bytes msg' h = ground (arith, length-split_at (length msg.body - n) msg.body)

pop_chars_short : (n : ℕ) (msg : Message) → length msg.body < n → pop_chars n msg ≡ none
unfolding pop_chars
pop_chars_short zero msg h = absurd (omega arith)
pop_chars_short (suc n) msg h = elim (Option-cases (pop msg 1)) [
  | inl e ↦ rw e
  | inr ((c, msg'), e) ↦ rw (e, pop_chars_short n msg' (omega (arith, length-pop msg 1 c msg' e)))
]

-- The server trusts the length that a client writes: if the two bytes that it pops say that more
-- characters follow than the body has, it reads outside the body.
pub pop_str_short :
    (msg : Message) (n : ℕ)
    → IsSized msg
    → n < 2 ^ 16
    → length msg.body < n
    → pop_str (push msg (to_bytes 2 n)) ≡ none
unfolding pop_str
pop_str_short msg n v w h = rw (pop-push₂ msg n v, of_bytes-to_bytes₂ n w, pop_chars_short n msg h)

-- A text of 65535 bytes or more overflows the array of `push_str`, whose 16-bit length has wrapped.
pub push_str_overflow : (msg : Message) (s : Text) → 2 ^ 16 ≤ length s + 1 → push_str msg s ≡ none
unfolding push_str strcpy
push_str_overflow msg s h = ground arith
