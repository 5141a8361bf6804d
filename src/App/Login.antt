-- ===== src/App/Login.antt =====
-- `auth` of console.go against "auth" of rpc/server.go: the console logs in to the node.
use go_achat_node.Prelude.{
  ◌≡◌, refl, true, false, none, some, List, [], ◌∷◌, Bytes, codes, beq, beq_refl, ℤ, pos, ltb_ℤ, ok,
  err, Exec,
}
use go_achat_node.Rpc.{
  text, object, join, Req, string, new_rsp, failed, is_password, issued, Node, RpcFn, Services,
}
use go_achat_node.Rpc.Wire.{RpcJson, adapt, strings, new_req, serve_rpc}
use go_achat_node.Rpc.Access.{fn_reg, handle_rpc-auth, handle_rpc-auth_fail}
use go_achat_node.App.{Client, login}
use go_achat_node.App.Chatting.{IsReadReq, IsReadRsp, callrpc-handle_rpc}

-- The console that is logged in, and the node that has issued its token.
abbrev pub logged_in : {S : Type 0} → Bytes → ℤ → Client (Node S) → Client (Node S)
logged_in tok now c = record {
  token = tok;
  net = record c.net { tokens = (tok, now) ∷ c.net.tokens };
}

-- The request that `auth` makes.
abbrev pub login_req : {O : Type 0} → RpcJson O → Bytes → Bytes → Bytes → Req O
login_req json uuid token pwd = new_req json uuid token (codes "auth") (text pwd ∷ [])

module _ {O S : Type 0} (json : RpcJson O) (pwd : Bytes) (others : List (Bytes × RpcFn O S))
    (services : Services O S) (tok : Bytes) (now : ℤ) where
  -- The node, behind the console's HTTP client.
  abbrev pub post : Bytes → Exec (Node S) Bytes
  post = serve_rpc json (fn_reg pwd others services tok now) services

  login_req-plain :
      (uuid token pwd' : Bytes)
      → json.to_map pwd' ≡ none
      → login_req json uuid token pwd'
        ≡ record { id = uuid; token = token; method = codes "auth"; params = text pwd' ∷ [] }
  unfolding new_req adapt strings join
  login_req-plain uuid token pwd' plain = rw plain refl

  login_req-object :
      (uuid token pwd' : Bytes) {d : O}
      → json.to_map pwd' ≡ some d
      → login_req json uuid token pwd'
        ≡ record { id = uuid; token = token; method = codes "auth"; params = object d ∷ [] }
  unfolding new_req adapt strings join
  login_req-object uuid token pwd' read = rw read refl

  pub login-eq :
      (uuid : Bytes) (c : Client (Node S))
      → json.to_map pwd ≡ none
      → beq tok [] ≡ false
      → IsReadReq json (login_req json uuid c.token pwd)
      → IsReadRsp json (new_rsp uuid (string tok) none)
      → login json post uuid pwd c ≡ (ok tt, logged_in tok now c)
  unfolding login new_rsp
  login-eq uuid c plain some_tok read back =
      let right : is_password {O = O} pwd (text pwd ∷ []) ≡ true = beq_refl pwd in
      let answered =
        callrpc-handle_rpc json (fn_reg pwd others services tok now) services
          (login_req json uuid c.token pwd) c.net {rsp = new_rsp uuid (string tok) none}
          {n' = record c.net { tokens = (tok, now) ∷ c.net.tokens }} read back
          (rw (login_req-plain uuid c.token pwd plain)
            (handle_rpc-auth pwd others services tok now _ c.net refl right)) in
      rw answered (rw some_tok refl)

  -- With the node's password the console gets the token that the node issues, and a request with that
  -- token passes the node's check. The password is not the text of a JSON object, the token is not empty, the
  -- time is after 1970, and the request and the response are read as they were written.
  pub login-issued :
      (uuid : Bytes) (c : Client (Node S))
      → json.to_map pwd ≡ none
      → beq tok [] ≡ false
      → ltb_ℤ (pos 0) now ≡ true
      → IsReadReq json (login_req json uuid c.token pwd)
      → IsReadRsp json (new_rsp uuid (string tok) none)
      → let (outcome, c') = login json post uuid pwd c in
        (outcome ≡ ok tt)
        × (c'.token ≡ tok)
        × (ltb_ℤ (pos 0) (issued c'.net.tokens c'.token) ≡ true)
  unfolding issued
  login-issued uuid c plain some_tok late read back =
      rw (login-eq uuid c plain some_tok read back) (refl, refl, rw (beq_refl tok) late)

  -- Where the node's password is the text of a JSON object, the console sends the object, and the node
  -- refuses its own password: `auth` returns the error, and neither side has a new token. The password
  -- is not empty, and the request and the response are read as they were written.
  pub login-object :
      (uuid : Bytes) (c : Client (Node S)) {d : O}
      → json.to_map pwd ≡ some d
      → beq pwd [] ≡ false
      → IsReadReq json (login_req json uuid c.token pwd)
      → IsReadRsp json (failed uuid (codes "1002") (codes "auth_fail"))
      → login json post uuid pwd c ≡ (err (codes "1002 : auth_fail"), c)
  unfolding login new_rsp
  login-object uuid c {d} object_text locked read back =
      let answered =
        callrpc-handle_rpc json (fn_reg pwd others services tok now) services
          (login_req json uuid c.token pwd) c.net
          {rsp = failed uuid (codes "1002") (codes "auth_fail")} {n' = c.net} read back
          (rw (login_req-object uuid c.token pwd object_text)
            (handle_rpc-auth_fail pwd others services tok now _ c.net refl locked refl)) in
      rw answered refl
