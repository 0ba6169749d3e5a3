-- ===== src/Server/Update.antt =====
-- `Update` of net_server.h: the loop that hands the messages of the incoming queue to `OnMessage`.
-- The queue holds what has arrived when the loop looks; a message without its connection would be
-- read through a null pointer: `none`.
use servy.Prelude.{◌>>=◌, ℕ, zero, suc, ◌-◌, ◌^◌, List, [], ◌∷◌, Option, none, some}
use servy.Message.{OwnedMessage}
use servy.Archive.{Archive}
use servy.Server.{Server, on_message}

-- OnMessage(msg.remote, msg.msg)
unfoldable pub deliver : Archive → Server → OwnedMessage → Option Server
deliver a s m = elim m.remote [ none ↦ none | some client ↦ on_message a s client m.msg ]

-- The loop, with `nMaxMessages - nMessageCount` rounds left.
unfoldable pub rounds :
    Archive → ℕ → Server → List OwnedMessage → Option (Server × List OwnedMessage)
rounds a zero s q = some (s, q)
rounds a (suc left) s [] = some (s, [])
rounds a (suc left) s (m ∷ q) = do s' ← deliver a s m; rounds a left s' q

-- Update(nMaxMessages)
unfoldable pub update :
    Archive → ℕ → Server → List OwnedMessage → Option (Server × List OwnedMessage)
update a max_messages s q = rounds a max_messages s q

-- The argument -1, as a `size_t`.
abbrev pub no_limit : ℕ
no_limit = 2 ^ 64 - 1
