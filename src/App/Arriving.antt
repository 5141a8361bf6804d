-- ===== src/App/Arriving.antt =====
-- From the prompt of one console to the websocket of another: console.go, rpc/server.go, service.go
-- and mailbox.go together.
use go_achat_node.Prelude.{
  ◌≤◌, ◌≡◌, ◌≢◌, refl, ap, ◌∙◌, false, true, none, some, List, [], ◌∷◌, Memᴰ, Bytes, codes, beq,
  length, ℤ, pos, ltb_ℤ, Outcome, ok, err, Error, Exec,
}
use go_achat_node.Ldb.{Database}
use go_achat_node.Ldb.Laws.{DatabaseLaws, IteratorLaws}
use go_achat_node.Types.{
  Jid, Message, MessageList, max_pkg, peerid, new_message, new_normal_message,
}
use go_achat_node.Types.Codecs.{CodecLaws}
use go_achat_node.Mailbox.{MailCodecs, MailLaws, pid_normal}
use go_achat_node.Service.{send_msg}
use go_achat_node.Service.Forwarding.{store_and_forward}
use go_achat_node.Rpc.{
  text, Rsp, Req, string, new_rsp, Node, RpcFn, Services, find, issued, sendmsg,
}
use go_achat_node.Rpc.Wire.{RpcJson, adapt, str2x, serve_rpc}
use go_achat_node.Rpc.Sessions.{Session, has_token, open_session}
use go_achat_node.Rpc.Opening.{IsUp, IsReadable, send_msg-open_session}
use go_achat_node.App.{callrpc}
use go_achat_node.App.Console.{trim, send_line}
use go_achat_node.App.Chatting.{IsReadReq, IsReadRsp, IsTalk, console_line-sendmsg}

module _ {S W O : Type 0} (db : Database S) (laws : DatabaseLaws db) (iterator : IteratorLaws db)
    (codecs : MailCodecs) (formats : MailLaws codecs) (write : Message → W → Error × W)
    (request : Bytes → Bytes → Bytes → Exec S Bytes) (shown : W → MessageList)
    (up : IsUp write shown) (json : RpcJson O) (token : Bytes) (fn_reg : List (Bytes × RpcFn O S))
    (services : Services O S) where
  -- The message that a line in a session with `jid` becomes.
  abbrev pub spoken : Bytes → ℤ → Jid → Jid → Bytes → Message
  spoken uuid now myid jid cmd = new_normal_message uuid now myid jid (trim cmd) []

  -- A line that is typed in a session with a peer that is away, and whose first word is no command, is
  -- answered with success, and is among what that peer sees when it opens its own session: as a message
  -- whose content is the line without the blanks around it. The sender's token is valid, the line does
  -- not make a JSON object with the peer's id, the request and the response are read as they were
  -- written, the message has a non-empty id and is within the limit of size; the peer's mailbox can be reached
  -- by both and its messages lie under their own ids, the peer's requests are within its limits, and its connection is up.
  pub console_line-open_session :
      (uuid uuid' : Bytes) (now : ℤ) (myid jid : Jid) (cmd word : Bytes) (args : List Bytes)
      (n : Node S) (greet fid : Bytes) (then' : ℤ) (hear : Req O) (s : Session S W) {e : Bytes}
      → IsTalk cmd word args
      → beq jid [] ≡ false
      → adapt json (text jid ∷ str2x (word ∷ args)) ≡ none
      → find fn_reg (codes "sendmsg") ≡ some (sendmsg (send_msg request codecs) myid uuid' now)
      → ltb_ℤ (pos 0) (issued n.tokens token) ≡ true
      → IsReadReq json (send_line json token uuid word args jid)
      → IsReadRsp json (new_rsp uuid (string (codes "success")) none)
      → uuid' ≢ []
      → length (CodecLaws.image formats.message (spoken uuid' now myid jid cmd)) ≤ max_pkg
      → request
          (peerid jid)
          pid_normal
          (CodecLaws.image formats.message (spoken uuid' now myid jid cmd))
          n.world
        ≡ (err e, n.world)
      → s.net
        ≡ (callrpc json
            (serve_rpc json fn_reg services)
            (send_line json token uuid word args jid)
            n).1.world
      → has_token s.tokens hear.token ≡ true
      → IsReadable db laws iterator codecs formats write request jid s.net
      → ((callrpc json
            (serve_rpc json fn_reg services)
            (send_line json token uuid word args jid)
            n).0
          ≡ ok (new_rsp uuid (string (codes "success")) none))
        × Memᴰ
            (spoken uuid' now myid jid cmd)
            (shown (open_session write request codecs jid greet then' fid hear s).1.ws)
  unfolding new_normal_message new_message beq
  console_line-open_session uuid uuid' now myid jid cmd word args n greet fid then' hear s talk
        open' plain there valid read back some_id small away after known r =
      let m = spoken uuid' now myid jid cmd in
      let t = (send_msg request codecs m n.world).1 in
      let (sent, _) =
        store_and_forward db laws iterator codecs formats request jid m n.world r.node refl refl
          some_id small r.short away in
      let (_, answered) =
        console_line-sendmsg json token (send_msg request codecs) myid fn_reg services uuid uuid'
          jid cmd word now args n t talk open' plain there valid read back (λ i. (sent i, t)) in
      let moved : s.net ≡ t = after ∙ ap (λ (p : Outcome Rsp × Node S). p.1.world) answered in
      let (_, seen) =
        send_msg-open_session db laws iterator codecs formats write request jid shown up greet then'
          fid hear m n.world s refl refl some_id small away moved known r in
      (ap (λ (p : Outcome Rsp × Node S). p.0) answered, seen)
