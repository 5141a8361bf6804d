-- ===== src/App/Attaching.antt =====
-- A console that attaches to a node, and the session that the node opens for it.
use go_achat_node.Prelude.{
  ◌≡◌, refl, true, false, none, [], ◌∷◌, ◌++◌, List, Bytes, codes, beq, beq_refl, ℤ, Outcome, ok,
  err, panic, Error, Exec,
}
use go_achat_node.Ldb.{Database}
use go_achat_node.Ldb.Laws.{DatabaseLaws, IteratorLaws}
use go_achat_node.Types.{Jid, Message, MessageList}
use go_achat_node.Mailbox.{MailCodecs, MailLaws}
use go_achat_node.Rpc.{Tokens, string, new_rsp, Node, RpcFn, Services}
use go_achat_node.Rpc.Wire.{RpcJson}
use go_achat_node.Rpc.Sessions.{Session, has_token, greeting, open_session}
use go_achat_node.Rpc.Opening.{Shows, IsReadable, waiting, open_session-Shows, open_session_empties}
use go_achat_node.App.{Client}
use go_achat_node.App.Attach.{attach, opening}
use go_achat_node.App.Chatting.{IsReadReq, IsReadRsp}
use go_achat_node.App.Prompt.{new_req-token}
use go_achat_node.App.Login.{login_req, post, logged_in, login-eq}

has_token-first :
    (tok : Bytes) (now : ℤ) (tokens : Tokens) → has_token ((tok, now) ∷ tokens) tok ≡ true
unfolding has_token
has_token-first tok now tokens = rw (beq_refl tok) refl

module _ {O S V : Type 0} (json : RpcJson O) (pwd : Bytes) (others : List (Bytes × RpcFn O S))
    (services : Services O S) (tok : Bytes) (now : ℤ) (dial : Exec (Node S) V)
    (send : V → Bytes → Node S → Error × Node S) where
  -- The login is over; what is left is the connection.
  module _ (uuid uuid' : Bytes) (c : Client (Node S)) (plain : json.to_map pwd ≡ none)
      (some_tok : beq tok [] ≡ false) (read : IsReadReq json (login_req json uuid c.token pwd))
      (back : IsReadRsp json (new_rsp uuid (string tok) none)) where
    abbrev attaching : Outcome V × Client (Node S)
    attaching = attach json (post json pwd others services tok now) dial send uuid uuid' pwd c

    attach-connected :
        (ws : V) (n : Node S)
        → dial (logged_in tok now c).net ≡ (ok ws, n)
        → attaching ≡ (
          ok ws,
          record { token = tok; net = (send ws (json.marshal_req (opening json uuid' tok)).0 n).1 },
        )
    unfolding attach
    attach-connected ws n dialed =
        rw (login-eq json pwd others services tok now uuid c plain some_tok read back)
          (rw dialed refl)

    -- Where the websocket cannot be opened after a login, the console panics instead of giving the error.
    -- The password is right and not the text of a JSON object, the token is not empty, and the request
    -- and the response are read as they were written.
    pub attach_undialed :
        (n : Node S) {e : Bytes}
        → dial (logged_in tok now c).net ≡ (err e, n)
        → attach json (post json pwd others services tok now) dial send uuid uuid' pwd c
          ≡ (panic, record { token = tok; net = n })
    unfolding attach
    attach_undialed n dialed =
        rw (login-eq json pwd others services tok now uuid c plain some_tok read back)
          (rw dialed refl)

    module _ {D W : Type 0} (db : Database D) (laws : DatabaseLaws db) (iterator : IteratorLaws db)
        (codecs : MailCodecs) (formats : MailLaws codecs) (write : Message → W → Error × W)
        (request : Bytes → Bytes → Bytes → Exec D Bytes) (myid : Jid)
        (shown : W → MessageList) where
      -- A console that attaches with the node's password holds the websocket, and what it writes there
      -- opens a session: the greeting is shown on it and then all that lay in the mailbox of the node,
      -- which is empty afterwards.
      -- The password is not the text of a JSON object, the token is not empty, the requests and the
      -- response are read as they were written, the websocket opens and shows what is written to it, the session is served
      -- with the tokens after the login, the mailbox can be reached, its messages lie under their own
      -- ids, and the requests to it are within its limits of size.
      pub attach-open_session :
          (ws : V) (n : Node S) (uuid₂ : Bytes) (now₂ : ℤ) (fid : Bytes) (s : Session D W)
          → dial (logged_in tok now c).net ≡ (ok ws, n)
          → IsReadReq json (opening json uuid' tok)
          → s.tokens ≡ (logged_in tok now c).net.tokens
          → Shows write shown (
              greeting uuid₂ now₂ (opening json uuid' tok) (codes "result") (codes "success")
              ∷ waiting db codecs myid s.net)
          → IsReadable db laws iterator codecs formats write request myid s.net
          → let (outcome, c') =
              attach json (post json pwd others services tok now) dial send uuid uuid' pwd c in
            let frame = (json.marshal_req (opening json uuid' c'.token)).0 in
            let req = (json.unmarshal_req frame).0 in
            (outcome ≡ ok ws)
            × (c'.net ≡ (send ws frame n).1)
            × (shown (open_session write request codecs myid uuid₂ now₂ fid req s).1.ws
                ≡ shown s.ws
                  ++ greeting uuid₂ now₂ (opening json uuid' tok) (codes "result") (codes "success")
                    ∷ waiting db codecs myid s.net)
            × (waiting db codecs myid
                  (open_session write request codecs myid uuid₂ now₂ fid req s).1.net
                ≡ [])
      attach-open_session ws n uuid₂ now₂ fid s dialed framed tokens up r =
          rw (attach-connected ws n dialed) (
            refl,
            refl,
            rw framed (
                open_session-Shows db laws iterator codecs formats write request myid shown uuid₂
                  now₂ fid (opening json uuid' tok) s up known r),
            rw framed
                (open_session_empties db laws iterator codecs formats write request myid uuid₂ now₂
                  fid (opening json uuid' tok) s known r).1,
          )
        where
          known : has_token s.tokens (opening json uuid' tok).token ≡ true
          known =
              rw tokens
                (rw (new_req-token json tok uuid' (codes "open") []) (has_token-first tok now _))
