-- ===== src/Message/RoundTrip.antt =====
-- What is pushed comes back (net_message.h, push_str and pop_str).
use servy.Prelude.{
  ◌>>=◌, ℕ, ◌+◌, ◌-◌, ◌%◌, ◌^◌, ◌≤◌, ◌<◌, ◌≡◌, refl, ap, sym, ◌∙◌, true, false, List, [], ◌∷◌, ◌++◌,
  some, arith, length, length-append, ltb,
}
use servy.Prelude.Text.{Text}
use servy.Message.{Message, push, pop, split_at, to_bytes, of_bytes}
use servy.Message.Strings.{
  push_chars, pop_chars, push_str, pop_str, push_reply, pop_reply, c_str, strcpy, no_nul,
}

-- The header says how many bytes the body has.
abbrev pub IsSized : Message → Type 0
IsSized msg = msg.size ≡ length msg.body % 2 ^ 32

pub push-IsSized : (msg : Message) (bytes : List ℕ) → IsSized (push msg bytes)
unfolding push
push-IsSized msg bytes = refl

split_at-append : (xs ys : List ℕ) → split_at (length xs) (xs ++ ys) ≡ (xs, ys)
unfolding split_at
split_at-append [] ys = refl
split_at-append (x ∷ xs) ys = rw (split_at-append xs ys)

-- The bytes that were pushed last are popped first, and the message is as it was.
pub pop-push :
    (msg : Message) (bytes : List ℕ)
    → IsSized msg
    → pop (push msg bytes) (length bytes) ≡ some (bytes, msg)
unfolding pop push
pop-push msg bytes h =
    let before : length (msg.body ++ bytes) - length bytes ≡ length msg.body =
      omega (arith, length-append msg.body bytes) in
    let enough : ltb (length (msg.body ++ bytes)) (length bytes) ≡ false =
      ground (arith, length-append msg.body bytes) in
    rw (enough, before, split_at-append msg.body bytes)
      λ i. some (bytes, record msg { size = sym h i })

push_chars-IsSized : (msg : Message) (cs : List ℕ) → IsSized msg → IsSized (push_chars msg cs)
unfolding push_chars
push_chars-IsSized msg [] h = h
push_chars-IsSized msg (c ∷ cs) h = push-IsSized (push_chars msg cs) (c ∷ [])

-- The characters come back in the order in which the text has them.
pub pop_chars-push_chars :
    (cs : List ℕ) (msg : Message)
    → IsSized msg
    → pop_chars (length cs) (push_chars msg cs) ≡ some (cs, msg)
unfolding pop_chars push_chars
pop_chars-push_chars [] msg h = refl
pop_chars-push_chars (c ∷ cs) msg h = rw (
  pop-push (push_chars msg cs) (c ∷ []) (push_chars-IsSized msg cs h),
  pop_chars-push_chars cs msg h,
)

c_str-append : (s : Text) → no_nul s ≡ true → c_str (s ++ 0 ∷ []) ≡ some s
unfolding c_str no_nul
c_str-append [] h = refl
c_str-append (c ∷ s) h = ground (arith, c_str-append s)

strcpy_fits :
    (n : ℕ) (s : Text) → no_nul s ≡ true → length s + 1 ≤ n → strcpy n s ≡ some (s ++ 0 ∷ [])
unfolding strcpy
strcpy_fits n s h k = ground arith

pub of_bytes-to_bytes₂ : (n : ℕ) → n < 2 ^ 16 → of_bytes (to_bytes 2 n) ≡ n
unfolding of_bytes to_bytes
of_bytes-to_bytes₂ n h = omega arith

pub of_bytes-to_bytes₄ : (n : ℕ) → n < 2 ^ 32 → of_bytes (to_bytes 4 n) ≡ n
unfolding of_bytes to_bytes
of_bytes-to_bytes₄ n h = omega arith

-- The message that the client builds for a text.
abbrev pub packed : Message → Text → ℕ → Message
packed msg s w = push (push_chars msg (s ++ 0 ∷ [])) (to_bytes w (length s + 1))

pub pop-push₂ :
    (msg : Message) (n : ℕ)
    → IsSized msg
    → pop (push msg (to_bytes 2 n)) 2 ≡ some (to_bytes 2 n, msg)
unfolding to_bytes
pop-push₂ msg n h = pop-push msg (to_bytes 2 n) h

pub pop-push₄ :
    (msg : Message) (n : ℕ)
    → IsSized msg
    → pop (push msg (to_bytes 4 n)) 4 ≡ some (to_bytes 4 n, msg)
unfolding to_bytes
pop-push₄ msg n h = pop-push msg (to_bytes 4 n) h

pop_chars_text :
    (msg : Message) (s : Text)
    → IsSized msg
    → pop_chars (length s + 1) (push_chars msg (s ++ 0 ∷ [])) ≡ some (s ++ 0 ∷ [], msg)
pop_chars_text msg s h =
    ap (λ n. pop_chars n (push_chars msg (s ++ 0 ∷ []))) (sym (length-append s (0 ∷ [])))
    ∙ pop_chars-push_chars (s ++ 0 ∷ []) msg h

pub push_str_fits :
    (msg : Message) (s : Text)
    → no_nul s ≡ true
    → length s + 1 < 2 ^ 16
    → push_str msg s ≡ some (packed msg s 2)
unfolding push_str
push_str_fits msg s h k =
    let wraps : (length s + 1) % 2 ^ 16 ≡ length s + 1 = omega arith in
    rw (wraps, strcpy_fits (length s + 1) s h (omega arith))

pub push_reply_fits :
    (msg : Message) (s : Text)
    → no_nul s ≡ true
    → length s + 1 < 2 ^ 31
    → push_reply msg s ≡ some (packed msg s 4)
unfolding push_reply
push_reply_fits msg s h k =
    let fits : ltb (length s + 1) (2 ^ 31) ≡ true = ground arith in
    rw (fits, strcpy_fits (length s + 1) s h (omega arith))

pub pop_str-packed :
    (msg : Message) (s : Text)
    → IsSized msg
    → no_nul s ≡ true
    → length s + 1 < 2 ^ 16
    → pop_str (packed msg s 2) ≡ some (s, msg)
unfolding pop_str
pop_str-packed msg s v h k = rw (
  pop-push₂ (push_chars msg (s ++ 0 ∷ [])) (length s + 1) (push_chars-IsSized msg _ v),
  of_bytes-to_bytes₂ (length s + 1) k,
  pop_chars_text msg s v,
  c_str-append s h,
)

pub pop_reply-packed :
    (msg : Message) (s : Text)
    → IsSized msg
    → no_nul s ≡ true
    → length s + 1 < 2 ^ 31
    → pop_reply (packed msg s 4) ≡ some (s, msg)
unfolding pop_reply
pop_reply-packed msg s v h k =
    let fits : ltb (length s + 1) (2 ^ 31) ≡ true = ground arith in
    rw (
      pop-push₄ (push_chars msg (s ++ 0 ∷ [])) (length s + 1) (push_chars-IsSized msg _ v),
      of_bytes-to_bytes₄ (length s + 1) (omega arith),
      fits,
      pop_chars_text msg s v,
      c_str-append s h,
    )

-- A text without NUL of at most 65534 bytes that `push_str` puts on a message whose size member is
-- the size of its body is what `pop_str` takes from it, and the message is as it was.
pub pop_str-push_str :
    (msg : Message) (s : Text)
    → IsSized msg
    → no_nul s ≡ true
    → length s + 1 < 2 ^ 16
    → (push_str msg s >>= pop_str) ≡ some (s, msg)
pop_str-push_str msg s v h k = rw (push_str_fits msg s h k) (pop_str-packed msg s v h k)

-- The same of the server's replies and of the client that reads them, below 2 ^ 31 bytes.
pub pop_reply-push_reply :
    (msg : Message) (s : Text)
    → IsSized msg
    → no_nul s ≡ true
    → length s + 1 < 2 ^ 31
    → (push_reply msg s >>= pop_reply) ≡ some (s, msg)
pop_reply-push_reply msg s v h k = rw (push_reply_fits msg s h k) (pop_reply-packed msg s v h k)
