-- ===== src/Connection/Writing.antt =====
-- Where the writing end of a connection stands (net_connection.h).
use servy.Prelude.{ℕ, ◌≡◌, refl, ap, ◌∙◌, false, List, [], ◌∷◌, ◌++◌}
use servy.Message.{Message}
use servy.Connection.{Connection, Buffer, header, body, Write, close}
use servy.Connection.Wire.{encode_all}
use servy.Connection.Stream.{SameWriting}
use servy.Prelude.{only_member}

abbrev pub writing : Buffer → List ℕ → List Write
writing what left = record { what = what; left = left } ∷ []

-- Where the writing end stands; `rest` are the bytes that it has still to put on the wire. A
-- connection whose write has failed is closed and writes no more.
pub data Writing (c : Connection) (rest : List ℕ) : Type 0 where
  idle : c.messages_out ≡ [] → c.writes ≡ [] → rest ≡ [] → Writing c rest
  in_header :
      (m : Message) (q : List Message) (left : List ℕ)
      → c.messages_out ≡ m ∷ q
      → c.writes ≡ writing header left
      → rest ≡ left ++ m.body ++ encode_all q
      → Writing c rest
  in_body :
      (m : Message) (q : List Message) (left : List ℕ)
      → c.messages_out ≡ m ∷ q
      → c.writes ≡ writing body left
      → rest ≡ left ++ encode_all q
      → Writing c rest
  stopped :
      (m : Message) (q : List Message)
      → c.messages_out ≡ m ∷ q
      → c.writes ≡ []
      → c.is_open ≡ false
      → Writing c rest

-- The pending write, where there is only one.
pub only_write :
    {ws : List Write} {what what' : Buffer} {left left' : List ℕ} (pre post : List Write)
    → ws ≡ writing what left
    → ws ≡ pre ++ record { what = what'; left = left' } ∷ post
    → (what ≡ what') × (left ≡ left') × (pre ≡ []) × (post ≡ [])
only_write pre post e h =
    let (w, p, p') = only_member _ _ _ pre post e h in
    (ap (λ (x : Write). x.what) w, ap (λ (x : Write). x.left) w, p, p')

-- What the connection reads changes nothing of this, nor does its closing.
pub same-Writing :
    (c d : Connection) (rest : List ℕ) → SameWriting c d → Writing c rest → Writing d rest
same-Writing c d rest s (idle o w r) = idle (s.messages_out ∙ o) (s.writes ∙ w) r
same-Writing c d rest s (in_header m q left o w r) =
    in_header m q left (s.messages_out ∙ o) (s.writes ∙ w) r
same-Writing c d rest s (in_body m q left o w r) =
    in_body m q left (s.messages_out ∙ o) (s.writes ∙ w) r
same-Writing c d rest s (stopped m q o w e) =
    stopped m q (s.messages_out ∙ o) (s.writes ∙ w) (s.is_open ∙ e)

pub close-Writing : (c : Connection) (rest : List ℕ) → Writing c rest → Writing (close c) rest
close-Writing c rest (idle o w r) = idle o w r
close-Writing c rest (in_header m q left o w r) = in_header m q left o w r
close-Writing c rest (in_body m q left o w r) = in_body m q left o w r
close-Writing c rest (stopped m q o w d) = stopped m q o w refl
