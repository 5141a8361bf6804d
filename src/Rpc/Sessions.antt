-- ===== src/Rpc/Sessions.antt =====
-- rpc/server.go: the handler of /chat, a websocket that shows the messages of the node. The
-- connection is a parameter type `W`, and `write` is `Write` of it; what is written is the JSON of
-- a message. The request is the first frame that the client sends.
use go_achat_node.Prelude.{
  Bool, false, ◌||◌, Option, none, some, [], ◌∷◌, List, Bytes, codes, beq, if◌then◌else◌, ℤ,
  Outcome, ok, err, panic, Error, Exec, ◌>>◌,
}
use go_achat_node.Types.{Jid, Message, MessageList, MessageBag, new_sys_message}
use go_achat_node.Mailbox.{MailCodecs}
use go_achat_node.Service.{query_own, clean_own}
use go_achat_node.Service.Pump.{without_fid}
use go_achat_node.Service.Reading.{ids_of}
use go_achat_node.Rpc.{Req, Tokens}

-- What a session acts on: the tokens, the network, the callbacks of `ChatService` and the websocket.
pub record Session (N W : Type 0) : Type 0 where
  pub tokens : Tokens
  pub net : N
  pub handle_msg_fn : List Bytes
  pub ws : W

-- `_, ok := tokenmap[token]`
unfoldable pub has_token : Tokens → Bytes → Bool
has_token [] token = false
has_token ((t, at) ∷ tokens) token = let rest = has_token tokens token in beq t token || rest

-- The system message that answers the request.
unfoldable pub greeting : {O : Type 0} → Bytes → ℤ → Req O → Bytes → Bytes → Message
greeting uuid now req key val =
    new_sys_message uuid now []
      (record { key = codes "method"; val = req.method } ∷ record { key = key; val = val } ∷ [])

-- The errors of `Write` are not looked at.
unfoldable pub write_all : {W : Type 0} → (Message → W → Error × W) → MessageList → W → W
write_all write [] w = w
write_all write (m ∷ ms) w = write_all write ms (write m w).1

module _ {N W : Type 0} where
  -- `AppendHandleMsg`, with the uuid that it draws
  abbrev pub append_handle_msg : Bytes → Exec (Session N W) (Option Bytes)
  append_handle_msg fid s =
      (ok (some fid), record s { handle_msg_fn = fid ∷ without_fid s.handle_msg_fn fid })

  -- The end of the loop, `DropHandleMsg`.
  unfoldable pub close_session : Bytes → Session N W → Session N W
  close_session fid s = record s { handle_msg_fn = without_fid s.handle_msg_fn fid }

module _ {N W : Type 0} (write : Message → W → Error × W) where
  abbrev pub wrote : Message → Session N W → Session N W
  wrote m s = record s { ws = (write m s.ws).1 }

  -- The callback of the session, which `ChatService` starts with each message that arrives.
  unfoldable pub on_message : Message → Session N W → Session N W
  on_message msg s = wrote msg s

  module _ (request : Bytes → Bytes → Bytes → Exec N Bytes) (codecs : MailCodecs) (myid : Jid) where
    cleaned : Outcome (Unit {0}) × N → Exec (Session N W) (Unit {0})
    cleaned (ok _, net) s = (ok tt, record s { net = net })
    cleaned (err e, net) s = (ok tt, record s { net = net })
    cleaned (panic, net) s = (panic, record s { net = net })

    shown_bag : Outcome MessageBag × N → Exec (Session N W) (Unit {0})
    unfolding cleaned
    shown_bag (ok ml, net) s =
        cleaned (clean_own request codecs myid (ids_of ml.messages) net)
          (record s { net = net; ws = write_all write ml.messages s.ws })
    shown_bag (err e, net) s = (ok tt, record s { net = net })
    shown_bag (panic, net) s = (panic, record s { net = net })

    -- What lies in the mailbox is written, and cleaned there.
    unfoldable pub show_mailbox : Exec (Session N W) (Unit {0})
    unfolding shown_bag
    show_mailbox s = shown_bag (query_own request codecs myid s.net) s

    -- The handler up to its loop: the id of the callback of a session that stays open, none of one
    -- that is closed at once.
    unfoldable pub open_session :
        {O : Type 0} → Bytes → ℤ → Bytes → Req O → Exec (Session N W) (Option Bytes)
    open_session uuid now fid req s =
        if has_token s.tokens req.token
        then (do show_mailbox; append_handle_msg fid)
            (wrote (greeting uuid now req (codes "result") (codes "success")) s)
        else (ok none, wrote (greeting uuid now req (codes "error") (codes "error_token")) s)
