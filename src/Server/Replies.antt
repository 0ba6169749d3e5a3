-- ===== src/Server/Replies.antt =====
-- The texts that the server sends back, as client.cpp reads them.
use servy.Prelude.{◌>>=◌, ℕ, ◌+◌, ◌<◌, ◌^◌, ◌≡◌, refl, ap, ◌∙◌, true, Option, some, arith, length}
use servy.Prelude.Text.{Text, codes}
use servy.Message.{Message, MsgType, new}
use servy.Message.Strings.{no_nul, pop_reply}
use servy.Message.RoundTrip.{push_str_fits, push_reply_fits, pop_reply-packed, packed}
use servy.Archive.{Archive, fix_version}
use servy.Status.{print_qstatus}
use servy.Client
use servy.Server.{Server, handle, on_message, received_text, reply, send}
use servy.Server.Requests.{IsCarried, packed-id, received-packed}

-- The server has sent `client` one message, a text that the client reads as `s`.
pub record Replied (s : Server) (client : ℕ) (text : Text) (result : Option Server) : Type 0 where
  pub msg : Message
  pub posted : result ≡ some (send s client msg)
  pub kind : msg.id ≡ MsgType.send_text
  pub read : pop_reply msg ≡ some (text, new MsgType.send_text)

reply-Replied :
    (s : Server) (client : ℕ) (text : Text)
    → no_nul text ≡ true
    → length text + 1 < 2 ^ 31
    → Replied s client text (reply s client text)
unfolding reply
reply-Replied s client text h k = record {
  msg = packed (new MsgType.send_text) text 4;
  posted = rw (push_reply_fits (new MsgType.send_text) text h k);
  kind = packed-id MsgType.send_text text 4;
  read = pop_reply-packed (new MsgType.send_text) text refl h k;
}

-- A client that asks for the status is sent the status text, if that has no NUL and fits an `int`.
pub status-Replied :
    (a : Archive) (s : Server) (client : ℕ)
    → no_nul (print_qstatus s.scheduler) ≡ true
    → length (print_qstatus s.scheduler) + 1 < 2 ^ 31
    → Replied s client (print_qstatus s.scheduler) (on_message a s client Client.qstatus)
unfolding on_message
status-Replied a s client h k = reply-Replied s client (print_qstatus s.scheduler) h k

approved-plain : no_nul (codes "[APPROVED]") ≡ true
unfolding no_nul
approved-plain = refl

text_handled :
    (a : Archive) (s : Server) (client : ℕ) (msg : Message) (ss astr : Text)
    → msg.id ≡ MsgType.send_text
    → received_text msg ≡ some ss
    → a.load_astr ss ≡ some astr
    → on_message a s client msg ≡ reply s client (codes "[APPROVED]")
unfolding on_message
text_handled a s client msg ss astr e h k = ap (handle a s client msg) e ∙ rw (h, k)

-- A text that a client sends is answered by "[APPROVED]", if its archive can be carried and read.
pub text-Replied :
    (a : Archive) (s : Server) (client : ℕ) (text astr : Text)
    → IsCarried (a.save_astr text)
    → a.load_astr (fix_version (a.save_astr text)) ≡ some astr
    → Replied s client (codes "[APPROVED]") (Client.send_text a text >>= on_message a s client)
unfolding Client.send_text
text-Replied a s client text astr c h =
    rw
      (
        push_str_fits (new MsgType.send_text) (a.save_astr text) c.plain c.short,
        text_handled a s client (packed (new MsgType.send_text) (a.save_astr text) 2)
            (fix_version (a.save_astr text)) astr (packed-id MsgType.send_text (a.save_astr text) 2)
            (received-packed MsgType.send_text (a.save_astr text) c) h,
      )
      (reply-Replied s client (codes "[APPROVED]") approved-plain (omega arith))
