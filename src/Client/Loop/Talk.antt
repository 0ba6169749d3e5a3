-- ===== src/Client/Loop/Talk.antt =====
-- What the rounds of main show and send (client.cpp).
use servy.Prelude.{
  ◌>>=◌, ◌≡◌, refl, ap, sym, ◌∙◌, inl, inr, Bool, true, false, List, [], ◌∷◌, ◌++◌, Option, none,
  some, bound_some, if_some,
}
use mathlib.Core.Path.{subst}
use mathlib.Core.List.{append_assoc}
use mathlib.Core.Option.{some-injective}
use servy.Prelude.Int.{ℤ}
use servy.Message.{Message}
use servy.Archive.{Archive}
use servy.Client.Arguments.{Settings}
use servy.Client.Session.{Picked, nothing, quits, sends, pick, Shown, shown}
use servy.Client.Loop.{
  Seen, Main, start, hand_over, send_first, send_pick, answer_to, picked, show_first, receive,
  round, rounds, run_message,
}

-- What is shown for messages, one after the other.
unfoldable pub shown_all : List Message → Option (List Shown)
shown_all [] = some []
shown_all (msg ∷ msgs) = do s ← shown msg; ss ← shown_all msgs; some (s ∷ ss)

shown_all-append :
    (done : List Message) (msg : Message) (ss : List Shown) (s : Shown)
    → shown_all done ≡ some ss
    → shown msg ≡ some s
    → shown_all (done ++ msg ∷ []) ≡ some (ss ++ s ∷ [])
unfolding shown_all
shown_all-append [] msg ss s h k = rw (k, ← some-injective _ _ h) refl
shown_all-append (x ∷ done) msg ss s h k =
    let (sx, ex, h') = bound_some (shown x) _ (ss) h in
    let (rest, er, h'') = bound_some (shown_all done) _ ss h' in
    rw (ex, shown_all-append done msg rest s er k)
      (ap (λ ss. some (ss ++ s ∷ [])) (some-injective _ _ h''))

-- The screen shows a first part of what has arrived, and the rest waits.
pub record IsTold (m : Main) : Type 0 where
  pub done : List Message
  pub split : m.arrived ≡ done ++ m.incoming
  pub told : shown_all done ≡ some m.screen

hand_over-IsTold : (up : Bool) (msg : Message) (m : Main) → IsTold m → IsTold (hand_over up msg m)
unfolding hand_over
hand_over-IsTold true msg m v = record { done = v.done; split = v.split; told = v.told }
hand_over-IsTold false msg m v = v

arrived-IsTold :
    (ms : List Message) (m : Main)
    → IsTold m
    → IsTold (record m { incoming = m.incoming ++ ms; arrived = m.arrived ++ ms })
arrived-IsTold ms m v = record {
  done = v.done;
  split = ap (λ xs. xs ++ ms) v.split ∙ append_assoc v.done m.incoming ms;
  told = v.told;
}

send_first-IsTold :
    (a : Archive) (s : Settings) (seen : Seen) (m m' : Main)
    → send_first a s seen m ≡ some m'
    → IsTold m
    → IsTold m'
unfolding send_first
send_first-IsTold a s seen m m' h v = elim (if_some m.sendrun _ _ m' h) [
  | inl (_, k) ↦
      let (msg, _, e) = bound_some (run_message a s) _ m' k in
      let w = hand_over-IsTold seen.up_run msg m v in
      subst IsTold (some-injective _ _ e) (record { done = w.done; split = w.split; told = w.told })
  | inr (_, k) ↦ subst IsTold (some-injective _ _ k) v
]

picked-IsTold : (p : Picked) (seen : Seen) (m : Main) → IsTold m → IsTold (picked p seen m)
picked-IsTold nothing seen m v = v
picked-IsTold quits seen m v = record { done = v.done; split = v.split; told = v.told }
picked-IsTold (sends msg) seen m v = hand_over-IsTold seen.up_pick msg m v

show_first-IsTold :
    (ms : List Message) (m m' : Main)
    → m.incoming ≡ ms
    → show_first ms m ≡ some m'
    → IsTold m
    → IsTold m'
show_first-IsTold [] m m' e h v = subst IsTold (some-injective _ _ h) v
show_first-IsTold (msg ∷ rest) m m' e h v =
    let (s, es, h') = bound_some (shown msg) _ m' h in
    subst IsTold (some-injective _ _ h') (record {
      done = v.done ++ msg ∷ [];
      split = v.split ∙ (ap (λ xs. v.done ++ xs) e ∙ sym (append_assoc v.done (msg ∷ []) rest));
      told = shown_all-append v.done msg m.screen s v.told es;
    })

answer_to-IsTold :
    (news : Option ℤ) (a : Archive) (s : Settings) (seen : Seen) (m m' : Main)
    → answer_to news a s seen m ≡ some m'
    → IsTold m
    → IsTold m'
answer_to-IsTold none a s seen m m' h v = subst IsTold (some-injective _ _ h) v
answer_to-IsTold (some n) a s seen m m' h v =
    let (p, _, e) = bound_some (pick a seen.now s.user n) _ m' h in
    subst IsTold (some-injective _ _ e) (picked-IsTold p seen m v)

send_pick-IsTold :
    (a : Archive) (s : Settings) (seen : Seen) (m m' : Main)
    → send_pick a s seen m ≡ some m'
    → IsTold m
    → IsTold m'
unfolding send_pick
send_pick-IsTold a s seen m m' h v = answer_to-IsTold seen.news a s seen m m' h v

receive-IsTold : (seen : Seen) (m m' : Main) → receive seen m ≡ some m' → IsTold m → IsTold m'
unfolding receive
receive-IsTold seen m m' h v = elim (if_some seen.up_loop _ _ m' h) [
  | inl (_, k) ↦ show_first-IsTold m.incoming m m' refl k v
  | inr (_, k) ↦
      subst IsTold (some-injective _ _ k) (record { done = v.done; split = v.split; told = v.told })
]

round-IsTold :
    (a : Archive) (s : Settings) (seen : Seen) (m m' : Main)
    → round a s seen m ≡ some m'
    → IsTold m
    → IsTold m'
unfolding round
round-IsTold a s seen m m' h v =
    let (m₁, e₁, h₁) =
      bound_some
        (send_first a s seen
          (record m { incoming = m.incoming ++ seen.arrives; arrived = m.arrived ++ seen.arrives }))
        _ m' h in
    let (m₂, e₂, h₂) = bound_some (send_pick a s seen m₁) _ m' h₁ in
    let v₁ = send_first-IsTold a s seen _ m₁ e₁ (arrived-IsTold seen.arrives m v) in
    let v₂ = send_pick-IsTold a s seen m₁ m₂ e₂ v₁ in
    elim (if_some m₂.quit _ _ m' h₂) [
      | inl (_, k) ↦ subst IsTold (some-injective _ _ k) v₂
      | inr (_, k) ↦ receive-IsTold seen m₂ m' k v₂
    ]

rounds-IsTold :
    (a : Archive) (s : Settings) (seens : List Seen) (m m' : Main)
    → rounds a s seens m ≡ some m'
    → IsTold m
    → IsTold m'
unfolding rounds
rounds-IsTold a s [] m m' h v = subst IsTold (some-injective _ _ h) v
rounds-IsTold a s (seen ∷ more) m m' h v = elim (if_some m.quit _ _ m' h) [
  | inl (_, k) ↦ subst IsTold (some-injective _ _ k) v
  | inr (_, k) ↦
      let (n, e, k') = bound_some (round a s seen m) _ m' k in
      rounds-IsTold a s more n m' k' (round-IsTold a s seen m n e v)
]

start-IsTold : (sendrun : Bool) → IsTold (start sendrun)
unfolding shown_all
start-IsTold sendrun = record { done = []; split = refl; told = refl }

-- Whatever the rounds bring, the screen shows a first part of what has arrived, in the order of its
-- arrival, each message once, and the rest waits in the queue.
pub shows_in_order :
    (a : Archive) (s : Settings) (seens : List Seen) (sendrun : Bool) (m : Main)
    → rounds a s seens (start sendrun) ≡ some m
    → IsTold m
shows_in_order a s seens sendrun m h =
    rounds-IsTold a s seens (start sendrun) m h (start-IsTold sendrun)
