-- ===== src/Connection/Wire.antt =====
-- The bytes of messages on the wire, and how a header is read back (net_connection.h).
use native.Mathlib.Nat.{pow-suc}
use servy.Prelude.{
  ℕ, zero, suc, ◌/◌, ◌^◌, ◌<◌, ◌≡◌, refl, false, List, [], ◌∷◌, ◌++◌, arith, ltb, length,
}
use mathlib.Core.List.{append_assoc, append-nil}
use servy.Message.{Message, to_bytes, of_bytes, split_at, code_of, of_code}
use servy.Connection.{header_bytes, resize}

-- A message as it goes over the wire.
unfoldable pub encode : Message → List ℕ
encode msg = header_bytes msg ++ msg.body

unfoldable pub encode_all : List Message → List ℕ
encode_all [] = []
encode_all (m ∷ ms) = encode m ++ encode_all ms

-- A message whose header says what it holds: the id is an enumerator or one of the other values of
-- 32 bits, and the size is that of the body.
pub record IsFramed (msg : Message) : Type 0 where
  pub known : of_code (code_of msg.id) ≡ msg.id
  pub narrow : code_of msg.id < 2 ^ 32
  pub sized : msg.size ≡ length msg.body
  pub short : length msg.body < 2 ^ 32

pub length-to_bytes : (w x : ℕ) → length (to_bytes w x) ≡ w
unfolding to_bytes
length-to_bytes zero x = refl
length-to_bytes (suc w) x = omega (arith, length-to_bytes w (x / 256))

pub of_bytes-to_bytes : (w x : ℕ) → x < 256 ^ w → of_bytes (to_bytes w x) ≡ x
unfolding of_bytes to_bytes
of_bytes-to_bytes zero x h = omega arith
of_bytes-to_bytes (suc w) x h =
    let less : x / 256 < 256 ^ w = omega (arith, pow-suc 256 w) in
    omega (arith, of_bytes-to_bytes w (x / 256) less)

pub split_at-append : (xs ys : List ℕ) → split_at (length xs) (xs ++ ys) ≡ (xs, ys)
unfolding split_at
split_at-append [] ys = refl
split_at-append (x ∷ xs) ys = rw (split_at-append xs ys)

pub split_at-header :
    (x y : ℕ) → split_at 4 (to_bytes 4 x ++ to_bytes 4 y) ≡ (to_bytes 4 x, to_bytes 4 y)
unfolding to_bytes
split_at-header x y = split_at-append (to_bytes 4 x) (to_bytes 4 y)

pub length-header_bytes : (msg : Message) → length (header_bytes msg) ≡ 8
unfolding header_bytes to_bytes
length-header_bytes msg = refl

pub length-resize : (n : ℕ) (bytes : List ℕ) → length (resize n bytes) ≡ n
unfolding resize
length-resize zero bytes = refl
length-resize (suc n) [] = omega (arith, length-resize n [])
length-resize (suc n) (b ∷ bytes) = omega (arith, length-resize n bytes)

pub encode_all-snoc :
    (ms : List Message) (m : Message) → encode_all (ms ++ m ∷ []) ≡ encode_all ms ++ encode m
unfolding encode_all
encode_all-snoc [] m = append-nil (encode m)
encode_all-snoc (x ∷ ms) m =
    rw (encode_all-snoc ms m, ← append_assoc (encode x) (encode_all ms) (encode m))

-- Reading `n` bytes of a stream that begins with `n` known ones takes just these.
pub read_exactly :
    (bytes rest xs ys : List ℕ)
    → length bytes ≡ length xs
    → bytes ++ rest ≡ xs ++ ys
    → (bytes ≡ xs) × (rest ≡ ys)
read_exactly [] rest [] ys e h = (refl, h)
read_exactly [] rest (x ∷ xs) ys e h = absurd (omega arith)
read_exactly (b ∷ bytes) rest [] ys e h = absurd (omega arith)
read_exactly (b ∷ bytes) rest (x ∷ xs) ys e h =
    let tails = read_exactly bytes rest xs ys (omega arith) (cc) in (cc, tails.1)

pub body_empty : (bytes : List ℕ) → ltb 0 (length bytes) ≡ false → bytes ≡ []
body_empty [] h = refl
body_empty (b ∷ bytes) h = ground arith
