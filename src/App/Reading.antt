-- ===== src/App/Reading.antt =====
-- The read loop of `rwLoop` in console.go: what the console reads from the websocket. `FromJson` and
-- `Json` of a message are amino's, and parameters.
use mathlib.Core.List.{map-append}
use go_achat_node.Prelude.{
  All, ◌≡◌, refl, ap, ◌∙◌, none, List, [], ◌∷◌, ◌++◌, map, Bytes, Outcome, ok, err, panic, Error,
  Exec, ℤ, beq, codes, false,
}
use go_achat_node.Types.{Jid, Message, MessageList}
use go_achat_node.Ldb.{Database}
use go_achat_node.Ldb.Laws.{DatabaseLaws, IteratorLaws}
use go_achat_node.Mailbox.{MailCodecs, MailLaws}
use go_achat_node.Rpc.{string, new_rsp, Node, RpcFn, Services}
use go_achat_node.Rpc.Wire.{RpcJson}
use go_achat_node.Rpc.Sessions.{Session, greeting, open_session}
use go_achat_node.Rpc.Opening.{Shows, IsReadable, waiting}
use go_achat_node.App.{Client}
use go_achat_node.App.Attach.{attach, opening}
use go_achat_node.App.Attaching.{attach-open_session}
use go_achat_node.App.Chatting.{IsReadReq, IsReadRsp}
use go_achat_node.App.Login.{login_req, post, logged_in}

pub record MessageJson : Type 0 where
  -- `Message.Json`
  pub to_json : Message → Bytes
  -- `Message.FromJson` into a new message
  pub from_json : Bytes → Message × Error

-- The message is read back as it was written. JSON is text: one with other bytes is not.
abbrev pub IsText : MessageJson → Message → Type 0
IsText json m = json.from_json (json.to_json m) ≡ (m, none)

module _ (json : MessageJson) where
  -- The messages that the read loop prints, each with its error, until `Receive` fails. A frame that is
  -- no message does not end the loop.
  unfoldable pub read_loop : List (Outcome Bytes) → List (Message × Error)
  read_loop [] = []
  read_loop (ok j ∷ received) = json.from_json j ∷ read_loop received
  read_loop (err e ∷ received) = []
  read_loop (panic ∷ received) = []

  -- A websocket that loses nothing: the frames that were written, in their order.
  abbrev pub write_frame : Message → List Bytes → Error × List Bytes
  write_frame m w = (none, w ++ json.to_json m ∷ [])

  -- What the console has read of it.
  abbrev pub on_screen : List Bytes → MessageList
  on_screen w = map (λ p. p.0) (read_loop (map ok w))

  read_loop-append :
      (w v : List Bytes)
      → read_loop (map ok (w ++ v)) ≡ read_loop (map ok w) ++ read_loop (map ok v)
  unfolding read_loop
  read_loop-append [] v = refl
  read_loop-append (j ∷ w) v = rw (read_loop-append w v)

  -- Such a websocket shows the messages that are text, with the console at its other end.
  IsText-Shows : (ms : MessageList) → All (IsText json) ms → Shows write_frame on_screen ms
  unfolding read_loop
  IsText-Shows [] all = tt
  IsText-Shows (m ∷ ms) all = (
    λ w.
        ap (λ (l : List (Message × Error)). map (λ p. p.0) l)
          (read_loop-append w (json.to_json m ∷ []))
        ∙ map-append (λ p. p.0) (read_loop (map ok w)) (read_loop (ok (json.to_json m) ∷ []))
        ∙ ap (λ (p : Message × Error). on_screen w ++ p.0 ∷ []) all.0,
    IsText-Shows ms all.1,
  )

module _ {O S V D : Type 0} (json : RpcJson O) (pwd : Bytes) (others : List (Bytes × RpcFn O S))
    (services : Services O S) (tok : Bytes) (now : ℤ) (dial : Exec (Node S) V)
    (send : V → Bytes → Node S → Error × Node S) (messages : MessageJson) (db : Database D)
    (laws : DatabaseLaws db) (iterator : IteratorLaws db) (codecs : MailCodecs)
    (formats : MailLaws codecs) (request : Bytes → Bytes → Bytes → Exec D Bytes) (myid : Jid) where
  -- A console that attaches with the node's password holds the websocket, and what it writes there
  -- opens a session, in which its read loop prints the greeting and then all that lay in the mailbox of
  -- the node, whose mailbox is empty afterwards. The password is not the text of a JSON object, the token
  -- is not empty, the requests, the response, the greeting and the messages in the mailbox are read as
  -- they were written, the websocket opens and loses nothing, the session is served with the tokens after the login, the mailbox can be reached,
  -- its messages lie under their own ids, and the requests to it are within its limits of size.
  pub attach-read_loop :
      (uuid uuid' : Bytes) (c : Client (Node S)) (ws : V) (n : Node S) (uuid₂ : Bytes) (now₂ : ℤ)
      (fid : Bytes) (s : Session D (List Bytes))
      → json.to_map pwd ≡ none
      → beq tok [] ≡ false
      → IsReadReq json (login_req json uuid c.token pwd)
      → IsReadRsp json (new_rsp uuid (string tok) none)
      → dial (logged_in tok now c).net ≡ (ok ws, n)
      → IsReadReq json (opening json uuid' tok)
      → s.tokens ≡ (logged_in tok now c).net.tokens
      → s.ws ≡ []
      → All (IsText messages) (
          greeting uuid₂ now₂ (opening json uuid' tok) (codes "result") (codes "success")
          ∷ waiting db codecs myid s.net)
      → IsReadable db laws iterator codecs formats (write_frame messages) request myid s.net
      → let (outcome, c') =
          attach json (post json pwd others services tok now) dial send uuid uuid' pwd c in
        let frame = (json.marshal_req (opening json uuid' c'.token)).0 in
        let req = (json.unmarshal_req frame).0 in
        let t = (open_session (write_frame messages) request codecs myid uuid₂ now₂ fid req s).1 in
        (outcome ≡ ok ws)
        × (c'.net ≡ (send ws frame n).1)
        × (on_screen messages t.ws
            ≡ greeting uuid₂ now₂ (opening json uuid' tok) (codes "result") (codes "success")
              ∷ waiting db codecs myid s.net)
        × (waiting db codecs myid t.net ≡ [])
  unfolding read_loop
  attach-read_loop uuid uuid' c ws n uuid₂ now₂ fid s plain some_tok read back dialed framed tokens
        fresh text r =
      let answer : MessageList =
        greeting uuid₂ now₂ (opening json uuid' tok) (codes "result") (codes "success")
        ∷ waiting db codecs myid s.net in
      let (done, sent, shown, empty) =
        attach-open_session json pwd others services tok now dial send uuid uuid' c plain some_tok
          read back db laws iterator codecs formats (write_frame messages) request myid
          (on_screen messages) ws n uuid₂ now₂ fid s dialed framed tokens
          (IsText-Shows messages answer text) r in
      (done, sent, shown ∙ ap (λ (w : List Bytes). on_screen messages w ++ answer) fresh, empty)
