-- ===== src/App/Chatting.antt =====
-- console.go: a line that is typed in a session, on its way to the peer: the console's request, the
-- POST to /rpc, "sendmsg" of rpc/server.go.
use go_achat_node.Prelude.{
  ◌≡◌, refl, sym, ap, ◌∙◌, true, false, none, some, List, [], ◌∷◌, Bytes, codes, beq, ℤ, pos, ltb_ℤ,
  ok, Exec,
}
use go_achat_node.Types.{Jid, Message, new_normal_message}
use go_achat_node.Rpc.{
  text, Req, Rsp, string, new_rsp, Node, RpcFn, Services, find, issued, split, join, sendmsg,
  handle_rpc,
}
use go_achat_node.Rpc.Wire.{RpcJson, adapt, new_req, str2x, serve_rpc}
use go_achat_node.Rpc.Sending.{join-split, sendmsg-words}
use go_achat_node.App.{callrpc}
use go_achat_node.App.Console.{enqueue, is_method, trim, send_line, console_line}

-- What is written as JSON is read back.
abbrev pub IsReadReq : {O : Type 0} → RpcJson O → Req O → Type 0
IsReadReq json req = json.unmarshal_req (json.marshal_req req).0 ≡ (req, none)

abbrev pub IsReadRsp : {O : Type 0} → RpcJson O → Rsp → Type 0
IsReadRsp json rsp = json.unmarshal_rsp (json.marshal_rsp rsp).0 ≡ (rsp, none)

-- The console's call is answered with what the node's handler gives.
pub callrpc-handle_rpc :
    {O S : Type 0} (json : RpcJson O) (fn_reg : List (Bytes × RpcFn O S)) (services : Services O S)
    (req : Req O) (n : Node S) {rsp : Rsp} {n' : Node S}
    → IsReadReq json req
    → IsReadRsp json rsp
    → handle_rpc fn_reg services req n ≡ (ok rsp, n')
    → callrpc json (serve_rpc json fn_reg services) req n ≡ (ok rsp, n')
unfolding callrpc serve_rpc
callrpc-handle_rpc json fn_reg services req n there back done = rw there (rw done (rw back refl))

-- The first word of a line is no command of the console.
abbrev pub IsTalk : Bytes → Bytes → List Bytes → Type 0
IsTalk cmd word args =
    (split 32 (trim cmd) ≡ word ∷ args)
    × (beq cmd [] ≡ false)
    × (beq word (codes "opensession") ≡ false)
    × (beq word (codes "help") ≡ false)
    × (beq word (codes "exit") ≡ false)
    × (is_method word ≡ false)

module _ {O : Type 0} (json : RpcJson O) (token : Bytes) where
  -- Such a line goes to a goroutine.
  pub console_line-talk :
      (uuid jid cmd word : Bytes) (args : List Bytes)
      → IsTalk cmd word args
      → console_line json token uuid jid cmd
        ≡ ok (some (some (enqueue (send_line json token uuid word args)), jid))
  unfolding console_line
  console_line-talk uuid jid cmd word args (words, filled, open', help, exit, method) =
      rw filled (rw words (rw open' (rw help (rw exit (rw method refl)))))

  pub send_line-session :
      (uuid jid word : Bytes) (args : List Bytes)
      → beq jid [] ≡ false
      → adapt json (text jid ∷ str2x (word ∷ args)) ≡ none
      → send_line json token uuid word args jid ≡ record {
        id = uuid;
        token = token;
        method = codes "sendmsg";
        params = text jid ∷ str2x (word ∷ args);
      }
  unfolding send_line new_req
  send_line-session uuid jid word args open' plain = rw open' (rw plain refl)

module _ {O S : Type 0} (json : RpcJson O) (token : Bytes) (send : Message → Exec S (Unit {0}))
    (myid : Jid) (fn_reg : List (Bytes × RpcFn O S)) (services : Services O S) where
  -- A line whose first word is no command becomes a request that, read while the session is still
  -- open, makes the node send one message to the peer of the session, whose content is the line
  -- without the blanks around it; the call succeeds where the sending does. The token is valid at the
  -- node, the line does not make a JSON object with the peer's id, and the request and the response
  -- are read as they were written.
  pub console_line-sendmsg :
      (uuid uuid' jid cmd word : Bytes) (now : ℤ) (args : List Bytes) (n : Node S) (t : S)
      → IsTalk cmd word args
      → beq jid [] ≡ false
      → adapt json (text jid ∷ str2x (word ∷ args)) ≡ none
      → find fn_reg (codes "sendmsg") ≡ some (sendmsg send myid uuid' now)
      → ltb_ℤ (pos 0) (issued n.tokens token) ≡ true
      → IsReadReq json (send_line json token uuid word args jid)
      → IsReadRsp json (new_rsp uuid (string (codes "success")) none)
      → send (new_normal_message uuid' now myid jid (trim cmd) []) n.world ≡ (ok tt, t)
      → (console_line json token uuid jid cmd
          ≡ ok (some (some (enqueue (send_line json token uuid word args)), jid)))
        × (callrpc json (serve_rpc json fn_reg services) (send_line json token uuid word args jid) n
            ≡ (ok (new_rsp uuid (string (codes "success")) none), record n { world = t }))
  console_line-sendmsg uuid uuid' jid cmd word now args n t talk open' plain there valid read back
        done =
      let same = send_line-session json token uuid jid word args open' plain in
      let line : join (word ∷ args) ≡ trim cmd = sym (ap join talk.0) ∙ join-split (trim cmd) in
      let answered =
        sendmsg-words send myid uuid' now fn_reg services
          (record {
            id = uuid;
            token = token;
            method = codes "sendmsg";
            params = text jid ∷ str2x (word ∷ args);
          })
          n jid (word ∷ args) t there valid refl refl (rw line done) in
      (
        console_line-talk json token uuid jid cmd word args talk,
        callrpc-handle_rpc json fn_reg services (send_line json token uuid word args jid) n read
            back (rw same answered),
      )
