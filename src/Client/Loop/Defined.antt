-- ===== src/Client/Loop/Defined.antt =====
-- When the rounds of main go through (client.cpp).
use servy.Prelude.{
  ◌>>=◌, ◌≡◌, refl, Bool, true, false, List, [], ◌∷◌, ◌++◌, Option, none, some, All, All-append,
  if◌then◌else◌,
}
use servy.Prelude.Int.{ℤ}
use servy.Message.{Message}
use servy.Archive.{Archive}
use servy.Client.Arguments.{Settings}
use servy.Client.Session.{Picked, nothing, quits, sends, pick, Shown, shown}
use servy.Client.Loop.{
  quit_and_join, Seen, Main, start, hand_over, send_first, send_pick, answer_to, picked, show_first,
  receive, round, rounds, run_message,
}

-- A message that the client can read.
abbrev pub IsShowable : Message → Type 0
IsShowable msg = (s : Shown) × shown msg ≡ some s

-- A round whose pick can be packed and whose messages can be read.
pub record IsOrdinary (a : Archive) (s : Settings) (seen : Seen) : Type 0 where
  pub packs : (z : ℤ) → seen.news ≡ some z → (p : Picked) × pick a seen.now s.user z ≡ some p
  pub reads : All IsShowable seen.arrives

abbrev Waits : Main → Type 0
Waits m = All IsShowable m.incoming

-- A part of a round that has a result, with messages waiting that can be read.
abbrev GoesOn : Option Main → Type 0
GoesOn o = (m : Main) × (o ≡ some m) × Waits m

hand_over-Waits : (up : Bool) (msg : Message) (m : Main) → Waits m → Waits (hand_over up msg m)
unfolding hand_over
hand_over-Waits true msg m w = w
hand_over-Waits false msg m w = w

if-GoesOn : (b : Bool) (o o' : Option Main) → GoesOn o → GoesOn o' → GoesOn (if b then o else o')
if-GoesOn true o o' g g' = g
if-GoesOn false o o' g g' = g'

bind-GoesOn :
    (o : Option Main) (f : Main → Option Main)
    → GoesOn o
    → ((m : Main) → Waits m → GoesOn (f m))
    → GoesOn (o >>= f)
bind-GoesOn o f (m, e, w) h = let (m', e', w') = h m w in (m', rw e e', w')

send_first-GoesOn :
    (a : Archive) (s : Settings) (seen : Seen) (msg : Message) (m : Main)
    → run_message a s ≡ some msg
    → Waits m
    → GoesOn (send_first a s seen m)
unfolding send_first
send_first-GoesOn a s seen msg m e w =
    if-GoesOn m.sendrun _ _
      (
        record (hand_over seen.up_run msg m) { sendrun = false },
        rw e refl,
        hand_over-Waits seen.up_run msg m w,
      )
      (m, refl, w)

picked-Waits : (p : Picked) (seen : Seen) (m : Main) → Waits m → Waits (picked p seen m)
picked-Waits nothing seen m w = w
picked-Waits quits seen m w = w
picked-Waits (sends msg) seen m w = hand_over-Waits seen.up_pick msg m w

answer_to-GoesOn :
    (news : Option ℤ) (a : Archive) (s : Settings) (seen : Seen) (m : Main)
    → ((z : ℤ) → news ≡ some z → (p : Picked) × pick a seen.now s.user z ≡ some p)
    → Waits m
    → GoesOn (answer_to news a s seen m)
answer_to-GoesOn none a s seen m h w = (m, refl, w)
answer_to-GoesOn (some z) a s seen m h w =
    let (p, e) = h z refl in (picked p seen m, rw e refl, picked-Waits p seen m w)

show_first-GoesOn :
    (ms : List Message) (m : Main) → All IsShowable ms → Waits m → GoesOn (show_first ms m)
show_first-GoesOn [] m h w = (m, refl, w)
show_first-GoesOn (msg ∷ rest) m h w =
    let (s, e) = h.0 in (record m { incoming = rest; screen = m.screen ++ s ∷ [] }, rw e refl, h.1)

receive-GoesOn : (seen : Seen) (m : Main) → Waits m → GoesOn (receive seen m)
unfolding receive
receive-GoesOn seen m w =
    if-GoesOn seen.up_loop _ _ (show_first-GoesOn m.incoming m w w) (quit_and_join seen m, refl, w)

round-GoesOn :
    (a : Archive) (s : Settings) (seen : Seen) (msg : Message) (m : Main)
    → run_message a s ≡ some msg
    → IsOrdinary a s seen
    → Waits m
    → GoesOn (round a s seen m)
unfolding round send_pick
round-GoesOn a s seen msg m e o w =
    bind-GoesOn (send_first a s seen _) _
      (send_first-GoesOn a s seen msg _ e (All-append IsShowable m.incoming seen.arrives w o.reads))
      (λ m₁ w₁.
        bind-GoesOn (send_pick a s seen m₁) _ (answer_to-GoesOn seen.news a s seen m₁ o.packs w₁)
          (λ m₂ w₂. if-GoesOn m₂.quit _ _ (m₂, refl, w₂) (receive-GoesOn seen m₂ w₂)))

rounds-GoesOn :
    (a : Archive) (s : Settings) (seens : List Seen) (msg : Message) (m : Main)
    → run_message a s ≡ some msg
    → All (IsOrdinary a s) seens
    → Waits m
    → GoesOn (rounds a s seens m)
unfolding rounds
rounds-GoesOn a s [] msg m e o w = (m, refl, w)
rounds-GoesOn a s (seen ∷ more) msg m e o w =
    if-GoesOn m.quit _ _ (m, refl, w)
      (bind-GoesOn (round a s seen m) _ (round-GoesOn a s seen msg m e o.0 w)
        (λ m' w'. rounds-GoesOn a s more msg m' e o.1 w'))

-- If the run of the arguments can be packed, and in each round the pick can be packed and the
-- messages that arrive can be read, then the rounds go through without an error.
pub rounds_defined :
    (a : Archive) (s : Settings) (seens : List Seen) (sendrun : Bool) (msg : Message)
    → run_message a s ≡ some msg
    → All (IsOrdinary a s) seens
    → (m : Main) × rounds a s seens (start sendrun) ≡ some m
rounds_defined a s seens sendrun msg e o =
    let (m, k, _) = rounds-GoesOn a s seens msg (start sendrun) e o tt in (m, k)
