-- ===== src/App.antt =====
-- app/achat/cmd/achat: the program, a node with its flags and a console that attaches to one. The
-- JSON and the HTTP client are parameters: `post` sends a body to rpcurl(RPC) and gives that of the
-- answer.
pub mod Login
pub mod Attach
pub mod Attaching
pub mod Reading
pub mod Console
pub mod Chatting
pub mod Arriving
pub mod Prompt
pub mod Shell
pub mod Terminal
pub mod Logging
pub mod Fingerprint
pub mod Config
pub mod Bootnodes
use go_achat_node.Prelude.{
  none, some, [], ◌∷◌, ◌++◌, Bytes, codes, beq, if◌then◌else◌, Outcome, ok, err, panic, Error, Exec,
}
use go_achat_node.Rpc.{text, string, Result, Req, RspError, Rsp}
use go_achat_node.Rpc.Wire.{RpcJson, new_req}

-- The console's token, and the network.
pub record Client (N : Type 0) : Type 0 where
  pub token : Bytes
  pub net : N

module _ {O N : Type 0} (json : RpcJson O) (post : Bytes → Exec N Bytes) where
  parsed : Rsp × Error → Outcome Rsp
  parsed (rsp, none) = ok rsp
  parsed (rsp, some e) = err e

  replied : Outcome Bytes × N → Outcome Rsp × N
  unfolding parsed
  replied (ok rtn, n) = (parsed (json.unmarshal_rsp rtn), n)
  replied (err e, n) = (err e, n)
  replied (panic, n) = (panic, n)

  -- `callrpc`
  unfoldable pub callrpc : Req O → Exec N Rsp
  unfolding replied
  callrpc req n = replied (post (json.marshal_req req).0 n)

  -- `rsp.Result.(string)`: anything but a string panics.
  take_token : Result → Exec (Client N) (Unit {0})
  take_token (string tkn) c =
      if beq tkn []
      then (err (codes "error pwd req / token resp"), c)
      else (ok tt, record c { token = tkn })
  take_token _ c = (panic, c)

  authorized : Outcome Rsp × N → Exec (Client N) (Unit {0})
  unfolding take_token
  authorized (ok rsp, n) c = elim rsp.error [
    | some e ↦ (err (e.code ++ codes " : " ++ e.message), record c { net = n })
    | none ↦ take_token rsp.result (record c { net = n })
  ]
  authorized (err e, n) c = (err e, record c { net = n })
  authorized (panic, n) c = (panic, record c { net = n })

  -- `auth`, with the uuid of its request
  unfoldable pub login : Bytes → Bytes → Exec (Client N) (Unit {0})
  unfolding authorized
  login uuid pwd c =
      authorized (callrpc (new_req json uuid c.token (codes "auth") (text pwd ∷ [])) c.net) c
