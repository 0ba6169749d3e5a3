-- ===== src/Tests/Messages.antt =====
-- net_message.h, push_str and pop_str at concrete texts.
use servy.Prelude.{◌>>=◌, ◌≡◌, refl, true, [], ◌∷◌, some, none, arith}
use servy.Prelude.Text.{Text, codes}
use servy.Message.{Message, send_text, push, pop, to_bytes, of_bytes, split_at}
use servy.Message
use servy.Message.Strings.{push_str, pop_str, push_reply, pop_reply, no_nul, push_chars, strcpy}
use servy.Message.RoundTrip.{pop-push, pop_str-push_str, pop_reply-push_reply}
use servy.Message.Bounds.{pop_str_short}

abbrev blank : Message
blank = package.servy.Message.new send_text

abbrev hello : Text
hello = codes "hello"

two_letters :
    push_str blank (codes "ab") ≡ some (record blank { size = 5; body = 0 ∷ 98 ∷ 97 ∷ 3 ∷ 0 ∷ [] })
unfolding push_str strcpy no_nul push_chars push to_bytes
two_letters = refl

no_nul-hello : no_nul hello ≡ true
unfolding no_nul
no_nul-hello = refl

pop-push_example : pop (push blank (1 ∷ 2 ∷ [])) 2 ≡ some (1 ∷ 2 ∷ [], blank)
pop-push_example = pop-push blank (1 ∷ 2 ∷ []) refl

pop_str-push_str_example : (push_str blank hello >>= pop_str) ≡ some (hello, blank)
pop_str-push_str_example = pop_str-push_str blank hello refl no_nul-hello (omega arith)

pop_reply-push_reply_example : (push_reply blank hello >>= pop_reply) ≡ some (hello, blank)
pop_reply-push_reply_example = pop_reply-push_reply blank hello refl no_nul-hello (omega arith)

pop_str_short_example : pop_str (push blank (to_bytes 2 100)) ≡ none
pop_str_short_example = pop_str_short blank 100 refl (omega arith) (omega arith)
