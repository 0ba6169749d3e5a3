-- ===== src/Client/Loop/Kinds.antt =====
-- The types of the messages that the client sends, by what it sends them for (client.cpp).
use servy.Prelude.{
  ℕ, ◌≡◌, refl, ap, sym, ◌∙◌, Bool, true, false, List, [], ◌∷◌, ◌++◌, Option, none, some,
  bound_some, Bool-cases, inl, inr, if◌then◌else◌, ◌==◌,
}
use mathlib.Core.Option.{some-injective}
use servy.Prelude.Int.{ℤ, pos, negsuc}
use servy.Prelude.Text.{Text}
use servy.Message
use servy.Message.{Message, MsgType, push, to_bytes}
use servy.Message.Strings.{push_str, strcpy}
use servy.Archive.{Archive}
use servy.Server.Requests.{push_chars-id}
use servy.Client
use servy.Client.Session.{Picked, sends, sent, pick}

abbrev pub is_run : MsgType → Bool
is_run MsgType.send_run = true
is_run _ = false

-- Those of some messages that carry a run.
unfoldable pub runs_of : List Message → List Message
runs_of [] = []
runs_of (msg ∷ msgs) = let rest = runs_of msgs in if is_run msg.id then msg ∷ rest else rest

pub runs_of-append :
    (msgs : List Message) (msg : Message)
    → runs_of (msgs ++ msg ∷ []) ≡ runs_of msgs ++ (if is_run msg.id then msg ∷ [] else [])
unfolding runs_of
runs_of-append [] msg = refl
runs_of-append (x ∷ msgs) msg = elim (Bool-cases (is_run x.id)) [
  | inl e ↦ rw e (ap (◌∷◌ x) (runs_of-append msgs msg))
  | inr e ↦ rw e (runs_of-append msgs msg)
]

pub push_str-id : (msg m : Message) (s : Text) → push_str msg s ≡ some m → m.id ≡ msg.id
unfolding push_str push
push_str-id msg m s h =
    let (cs, _, e) = bound_some (strcpy _ s) _ m h in
    ap (λ (m : Message). m.id) (sym (some-injective _ _ e)) ∙ push_chars-id msg cs

-- The picks send no run.
abbrev pub SendsNoRun : Option Picked → Type 0
SendsNoRun o = (msg : Message) → o ≡ some (sends msg) → is_run msg.id ≡ false

if-SendsNoRun :
    (b : Bool) (o o' : Option Picked)
    → SendsNoRun o
    → SendsNoRun o'
    → SendsNoRun (if b then o else o')
if-SendsNoRun true o o' h k = h
if-SendsNoRun false o o' h k = k

sends-injective : (a b : Message) → sends a ≡ sends b → a ≡ b
sends-injective a b e = cc

of_sent : (o : Option Message) (msg : Message) → sent o ≡ some (sends msg) → o ≡ some msg
of_sent none msg e = cc
of_sent (some m) msg e = ap some (sends-injective m msg (some-injective _ _ e))

packs-SendsNoRun :
    (id : MsgType) (s : Text)
    → is_run id ≡ false
    → SendsNoRun (sent (push_str (package.servy.Message.new id) s))
packs-SendsNoRun id s h msg e =
    ap is_run (push_str-id (package.servy.Message.new id) msg s (of_sent _ msg e)) ∙ h

plain-SendsNoRun : (msg : Message) → is_run msg.id ≡ false → SendsNoRun (some (sends msg))
plain-SendsNoRun msg h m e =
    ap is_run (ap (λ (m : Message). m.id) (sym (sends-injective msg m (some-injective _ _ e)))) ∙ h

pub pick-SendsNoRun :
    (a : Archive) (now : List ℕ) (user : Text) (usrpick : ℤ) → SendsNoRun (pick a now user usrpick)
unfolding pick Client.send_text Client.move_run_up Client.move_run_down Client.remove_run
    Client.ping_server push
pick-SendsNoRun a now user (negsuc n) = λ msg e. cc
pick-SendsNoRun a now user (pos n) =
    if-SendsNoRun (n == 1) _ _ (packs-SendsNoRun MsgType.send_text _ refl) (
      if-SendsNoRun (n == 2) _ _ (plain-SendsNoRun _ refl) (
        if-SendsNoRun (n == 3) _ _ (plain-SendsNoRun _ refl) (
          if-SendsNoRun (n == 4) _ _ (plain-SendsNoRun _ refl) (
            if-SendsNoRun (n == 5) _ _ (packs-SendsNoRun MsgType.move_run_up _ refl) (
              if-SendsNoRun (n == 6) _ _ (packs-SendsNoRun MsgType.move_run_down _ refl) (
                if-SendsNoRun (n == 7) _ _ (packs-SendsNoRun MsgType.remove_run _ refl)
                  (if-SendsNoRun (n == 0) _ _ (λ msg e. cc) (λ msg e. cc))))))))
