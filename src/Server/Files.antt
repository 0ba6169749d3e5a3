-- ===== src/Server/Files.antt =====
-- The file through which OnMessage hands the text of a message to the archive (`fwrite_serial` and
-- `fread_T` of net_common.h, SimpleServer.cpp).
use servy.Prelude.{
  ◌>>=◌, ◌≡◌, refl, ap, ◌∙◌, inl, inr, Bool, true, false, List, map, [], ◌∷◌, Option, none, some,
  All, Option-cases, if◌then◌else◌,
}
use servy.Prelude.Text.{Text}
use servy.Message.{Message}
use servy.Server.{received_text}

-- foobar.txt: what it holds, if it is there, and whether it can be opened for writing.
pub record File : Type 0 where
  pub content : Option Text
  pub writable : Bool

-- fwrite_serial and fwrite_astr: a stream that could not be opened takes the text without an error.
unfoldable pub fwrite_serial : Text → File → File
fwrite_serial ss file = if file.writable then record file { content = some ss } else file

-- fread_T and fread_astr: the archive throws if there is no file.
abbrev pub fread {ℓ} : {A : Type ℓ} → (Text → Option A) → File → Option A
fread ia file = file.content >>= ia

fwrite_serial-written :
    (ss : Text) (file : File)
    → file.writable ≡ true
    → fwrite_serial ss file ≡ record { content = some ss; writable = true }
unfolding fwrite_serial
fwrite_serial-written ss file w = rw w refl

fwrite_serial-lost :
    (ss : Text) (file : File) → file.writable ≡ false → fwrite_serial ss file ≡ file
unfolding fwrite_serial
fwrite_serial-lost ss file w = ap (λ b. if b then record file { content = some ss } else file) w

module _ {ℓ} {A : Type ℓ} (ia : Text → Option A) where
  -- What the cases of OnMessage do to get the value that a message carries.
  unfoldable pub receive : File → Message → Option (A × File)
  receive file msg = do
    ss ← received_text msg
    let written = fwrite_serial ss file
    x ← fread ia written
    some (x, written)

  -- The values of messages that are received one after the other.
  unfoldable pub receive_all : File → List Message → Option (List A)
  receive_all file [] = some []
  receive_all file (msg ∷ msgs) = do
    (x, file) ← receive file msg
    xs ← receive_all file msgs
    some (x ∷ xs)

  -- The values read straight from the texts of the messages.
  unfoldable pub read_all : List Message → Option (List A)
  read_all [] = some []
  read_all (msg ∷ msgs) = do ss ← received_text msg; x ← ia ss; xs ← read_all msgs; some (x ∷ xs)

  receive-written :
      (file : File) (msg : Message) (ss : Text)
      → file.writable ≡ true
      → received_text msg ≡ some ss
      → receive file msg ≡ (ia ss >>= λ x. some (x, record { content = some ss; writable = true }))
  unfolding receive
  receive-written file msg ss w e = rw (e, fwrite_serial-written ss file w)

  receive-none : (file : File) (msg : Message) → received_text msg ≡ none → receive file msg ≡ none
  unfolding receive
  receive-none file msg e = rw e

  receive-lost :
      (file : File) (msg : Message) (ss : Text)
      → file.writable ≡ false
      → received_text msg ≡ some ss
      → receive file msg ≡ (fread ia file >>= λ x. some (x, file))
  unfolding receive
  receive-lost file msg ss w e = rw (e, fwrite_serial-lost ss file w)

  -- While the file can be written, each message gives the value of its own text.
  pub receive_all-writable :
      (file : File) (msgs : List Message)
      → file.writable ≡ true
      → receive_all file msgs ≡ read_all msgs
  unfolding receive_all read_all
  receive_all-writable file [] w = refl
  receive_all-writable file (msg ∷ msgs) w = elim (Option-cases (received_text msg)) [
    | inl e ↦ rw (receive-none file msg e, e)
    | inr (ss, e) ↦ elim (Option-cases (ia ss)) [
      | inl k ↦ rw (receive-written file msg ss w e, e, k)
      | inr (x, k) ↦ rw (
        receive-written file msg ss w e,
        e,
        k,
        receive_all-writable (record { content = some ss; writable = true }) msgs refl,
      )
    ]
  ]

  -- Where the file cannot be written and holds a text that is read, every message gives the value of
  -- that text, whatever its own is.
  pub receive_all-stale :
      (file : File) (old : Text) (x : A) (msgs : List Message)
      → file.writable ≡ false
      → file.content ≡ some old
      → ia old ≡ some x
      → All (λ msg. (ss : Text) × received_text msg ≡ some ss) msgs
      → receive_all file msgs ≡ some (map (λ msg. x) msgs)
  unfolding receive_all
  receive_all-stale file old x [] w c k h = refl
  receive_all-stale file old x (msg ∷ msgs) w c k h =
      let (ss, e) = h.0 in
      let stale : fread ia file ≡ some x = ap (λ o. o >>= ia) c ∙ k in
      rw (receive-lost file msg ss w e, stale, receive_all-stale file old x msgs w c k h.1)
