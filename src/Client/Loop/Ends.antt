-- ===== src/Client/Loop/Ends.antt =====
-- How the loop of main comes to its end (client.cpp).
use servy.Prelude.{
  ◌≡◌, refl, ap, not, none, Option, inl, inr, Bool, true, false, List, [], ◌∷◌, ◌++◌, some, All,
  bound_some, if_some,
}
use mathlib.Core.Path.{subst}
use mathlib.Core.Option.{some-injective}
use servy.Message.{Message}
use servy.Archive.{Archive}
use servy.Client.Arguments.{Settings}
use servy.Prelude.Int.{ℤ}
use servy.Client.Session.{Picked, nothing, quits, sends, pick, shown}
use servy.Client.Loop.{
  hand_over, answer_to, picked, show_first, Seen, Main, send_first, send_pick, receive, round,
  rounds, start, run_message,
}
use servy.Client.Loop.Defined.{IsOrdinary, rounds_defined}

-- A round in which the server is gone.
abbrev pub IsDown : Seen → Type 0
IsDown seen = seen.up_loop ≡ false

round_down :
    (a : Archive) (s : Settings) (seen : Seen) (m m' : Main)
    → IsDown seen
    → round a s seen m ≡ some m'
    → m'.quit ≡ true
unfolding round receive
round_down a s seen m m' d h =
    let (m₁, _, h₁) = bound_some (send_first a s seen _) _ m' h in
    let (m₂, _, h₂) = bound_some (send_pick a s seen m₁) _ m' h₁ in
    elim (if_some m₂.quit _ _ m' h₂) [
      | inl (q, k) ↦ subst (λ (m : Main). m.quit ≡ true) (some-injective _ _ k) q
      | inr (_, k) ↦ elim (if_some seen.up_loop _ _ m' k) [
        | inl (u, _) ↦ absurd (cc (d, u))
        | inr (_, k') ↦ subst (λ (m : Main). m.quit ≡ true) (some-injective _ _ k') refl
      ]
    ]

rounds_quit :
    (a : Archive) (s : Settings) (seens : List Seen) (m m' : Main)
    → m.quit ≡ true
    → rounds a s seens m ≡ some m'
    → m'.quit ≡ true
unfolding rounds
rounds_quit a s [] m m' q h = subst (λ (m : Main). m.quit ≡ true) (some-injective _ _ h) q
rounds_quit a s (seen ∷ more) m m' q h = elim (if_some m.quit _ _ m' h) [
  | inl (_, k) ↦ subst (λ (m : Main). m.quit ≡ true) (some-injective _ _ k) q
  | inr (f, _) ↦ absurd (cc (q, f))
]

down_quits :
    (a : Archive) (s : Settings) (pre : List Seen) (seen : Seen) (post : List Seen) (m m' : Main)
    → IsDown seen
    → rounds a s (pre ++ seen ∷ post) m ≡ some m'
    → m'.quit ≡ true
unfolding rounds
down_quits a s [] seen post m m' d h = elim (if_some m.quit _ _ m' h) [
  | inl (q, k) ↦ subst (λ (m : Main). m.quit ≡ true) (some-injective _ _ k) q
  | inr (_, k) ↦
      let (m₁, e, k') = bound_some (round a s seen m) _ m' k in
      rounds_quit a s post m₁ m' (round_down a s seen m m₁ d e) k'
]
down_quits a s (other ∷ pre) seen post m m' d h = elim (if_some m.quit _ _ m' h) [
  | inl (q, k) ↦ subst (λ (m : Main). m.quit ≡ true) (some-injective _ _ k) q
  | inr (_, k) ↦
      let (m₁, _, k') = bound_some (round a s other m) _ m' k in
      down_quits a s pre seen post m₁ m' d k'
]

-- A round in which the reader's thread ends, should main wait for it.
abbrev pub IsReleased : Seen → Type 0
IsReleased seen = seen.joins ≡ true

-- Main does not wait for the reader.
abbrev IsFree : Main → Type 0
IsFree m = m.joining ≡ false

hand_over-IsFree : (up : Bool) (msg : Message) (m : Main) → IsFree m → IsFree (hand_over up msg m)
unfolding hand_over
hand_over-IsFree false msg m v = v
hand_over-IsFree true msg m v = v

send_first-IsFree :
    (a : Archive) (s : Settings) (seen : Seen) (m m' : Main)
    → send_first a s seen m ≡ some m'
    → IsFree m
    → IsFree m'
unfolding send_first
send_first-IsFree a s seen m m' h v = elim (if_some m.sendrun _ _ m' h) [
  | inl (_, k) ↦
      let (msg, _, k') = bound_some (run_message a s) _ m' k in
      subst IsFree (some-injective _ _ k') (hand_over-IsFree seen.up_run msg m v)
  | inr (_, k) ↦ subst IsFree (some-injective _ _ k) v
]

picked-IsFree :
    (p : Picked) (seen : Seen) (m : Main) → IsReleased seen → IsFree m → IsFree (picked p seen m)
picked-IsFree nothing seen m r v = v
picked-IsFree quits seen m r v = ap not r
picked-IsFree (sends msg) seen m r v = hand_over-IsFree seen.up_pick msg m v

answer_to-IsFree :
    (news : Option ℤ) (a : Archive) (s : Settings) (seen : Seen) (m m' : Main)
    → IsReleased seen
    → answer_to news a s seen m ≡ some m'
    → IsFree m
    → IsFree m'
answer_to-IsFree none a s seen m m' r h v = subst IsFree (some-injective _ _ h) v
answer_to-IsFree (some z) a s seen m m' r h v =
    let (p, _, k) = bound_some (pick a seen.now s.user z) _ m' h in
    subst IsFree (some-injective _ _ k) (picked-IsFree p seen m r v)

show_first-IsFree :
    (ms : List Message) (m m' : Main) → show_first ms m ≡ some m' → IsFree m → IsFree m'
show_first-IsFree [] m m' h v = subst IsFree (some-injective _ _ h) v
show_first-IsFree (msg ∷ rest) m m' h v =
    let (s, _, k) = bound_some (shown msg) _ m' h in subst IsFree (some-injective _ _ k) v

receive-IsFree :
    (seen : Seen) (m m' : Main) → IsReleased seen → receive seen m ≡ some m' → IsFree m → IsFree m'
unfolding receive
receive-IsFree seen m m' r h v = elim (if_some seen.up_loop _ _ m' h) [
  | inl (_, k) ↦ show_first-IsFree m.incoming m m' k v
  | inr (_, k) ↦ subst IsFree (some-injective _ _ k) (ap not r)
]

round-IsFree :
    (a : Archive) (s : Settings) (seen : Seen) (m m' : Main)
    → IsReleased seen
    → round a s seen m ≡ some m'
    → IsFree m
    → IsFree m'
unfolding round send_pick
round-IsFree a s seen m m' r h v =
    let (m₁, e₁, h₁) = bound_some (send_first a s seen _) _ m' h in
    let (m₂, e₂, h₂) = bound_some (send_pick a s seen m₁) _ m' h₁ in
    let v₂ =
      answer_to-IsFree seen.news a s seen m₁ m₂ r e₂ (send_first-IsFree a s seen _ m₁ e₁ v) in
    elim (if_some m₂.quit _ _ m' h₂) [
      | inl (_, k) ↦ subst IsFree (some-injective _ _ k) v₂
      | inr (_, k) ↦ receive-IsFree seen m₂ m' r k v₂
    ]

rounds-IsFree :
    (a : Archive) (s : Settings) (seens : List Seen) (m m' : Main)
    → All IsReleased seens
    → rounds a s seens m ≡ some m'
    → IsFree m
    → IsFree m'
unfolding rounds
rounds-IsFree a s [] m m' r h v = subst IsFree (some-injective _ _ h) v
rounds-IsFree a s (seen ∷ more) m m' r h v = elim (if_some m.quit _ _ m' h) [
  | inl (_, k) ↦ subst IsFree (some-injective _ _ k) v
  | inr (_, k) ↦
      let (m₁, e, k') = bound_some (round a s seen m) _ m' k in
      rounds-IsFree a s more m₁ m' r.1 k' (round-IsFree a s seen m m₁ r.0 e v)
]

-- If the run of the arguments can be packed, in each round the pick can be packed and the messages
-- that arrive can be read, the socket is not open in one of the rounds, and the reader's thread ends
-- whenever main waits for it, because it has seen bQuit or takes another number, then the rounds go
-- through without an error, the loop has ended, and main does not wait for the thread.
pub down_ends :
    (a : Archive) (s : Settings) (pre : List Seen) (seen : Seen) (post : List Seen) (sendrun : Bool)
    (msg : Message)
    → run_message a s ≡ some msg
    → All (IsOrdinary a s) (pre ++ seen ∷ post)
    → All IsReleased (pre ++ seen ∷ post)
    → IsDown seen
    → (m : Main) × (rounds a s (pre ++ seen ∷ post) (start sendrun) ≡ some m)
      × (m.quit ≡ true)
      × (m.joining ≡ false)
down_ends a s pre seen post sendrun msg e o r d =
    let (m, k) = rounds_defined a s (pre ++ seen ∷ post) sendrun msg e o in
    (
      m,
      k,
      down_quits a s pre seen post (start sendrun) m d k,
      rounds-IsFree a s (pre ++ seen ∷ post) (start sendrun) m r k refl,
    )
