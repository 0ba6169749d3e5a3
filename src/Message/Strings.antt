-- ===== src/Message/Strings.antt =====
-- push_str of client.cpp, pop_str of SimpleServer.cpp, and the text replies between the two.
use servy.Prelude.{
  ◌>>=◌, ℕ, zero, suc, true, false, ◌&&◌, ◌+◌, ◌%◌, ◌^◌, Bool, List, [], ◌∷◌, ◌++◌, Option, none,
  some, length, ltb, leb, ◌==◌, if◌then◌else◌,
}
use servy.Prelude.Text.{Text}
use servy.Message.{Message, push, pop, to_bytes, of_bytes}

-- The C string at the start of an array: the bytes before the first NUL. Without a NUL the read
-- runs out of the array: `none`.
unfoldable pub c_str : List ℕ → Option Text
c_str [] = none
c_str (c ∷ cs) = let rest = c_str cs in if c == 0 then some [] else (do s ← rest; some (c ∷ s))

-- The loops `for (i = n-1; i >= 0; i--) msg << char_array[i]`: the last character goes first.
unfoldable pub push_chars : Message → List ℕ → Message
push_chars msg [] = msg
push_chars msg (c ∷ cs) = push (push_chars msg cs) (c ∷ [])

-- The loops `for (i = 0; i < n; i++) msg >> char_array[i]`.
unfoldable pub pop_chars : ℕ → Message → Option (List ℕ × Message)
pop_chars zero msg = some ([], msg)
pop_chars (suc n) msg = do
  (c, msg') ← pop msg 1
  (cs, msg'') ← pop_chars n msg'
  some (c ++ cs, msg'')

unfoldable pub no_nul : Text → Bool
no_nul [] = true
no_nul (c ∷ s) = if c == 0 then false else no_nul s

-- strcpy into an array of `n` characters. It overflows where the text and its NUL do not fit, and
-- leaves indeterminate characters behind a NUL within the text: `none`.
unfoldable pub strcpy : ℕ → Text → Option (List ℕ)
strcpy n s = if no_nul s && leb (length s + 1) n then some (s ++ 0 ∷ []) else none

-- client.cpp: the length and the NUL are counted in a `uint16_t`.
unfoldable pub push_str : Message → Text → Option Message
push_str msg s = do
  let n = (length s + 1) % 2 ^ 16
  char_array ← strcpy n s
  some (push (push_chars msg char_array) (to_bytes 2 n))

-- SimpleServer.cpp
unfoldable pub pop_str : Message → Option (Text × Message)
pop_str msg = do
  (n, msg') ← pop msg 2
  (char_array, msg'') ← pop_chars (of_bytes n) msg'
  s ← c_str char_array
  some (s, msg'')

-- The replies of SimpleServer.cpp, whose length is an `int`. An `int` holds it below 2 ^ 31.
unfoldable pub push_reply : Message → Text → Option Message
push_reply msg s = do
  let n = length s + 1
  char_array ← if ltb n (2 ^ 31) then strcpy n s else none
  some (push (push_chars msg char_array) (to_bytes 4 n))

-- The SendText case of client.cpp: an array of a negative size is undefined.
unfoldable pub pop_reply : Message → Option (Text × Message)
pop_reply msg = do
  (n, msg') ← pop msg 4
  (char_array, msg'') ← if ltb (of_bytes n) (2 ^ 31) then pop_chars (of_bytes n) msg' else none
  s ← c_str char_array
  some (s, msg'')
