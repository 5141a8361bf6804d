-- ===== src/App/Attach.antt =====
-- `AttachCmd` of console.go up to the prompt: the login, the websocket, and the request that opens the
-- session. The one second that it waits is left out.
use go_achat_node.Prelude.{[], Bytes, codes, Outcome, ok, err, panic, Error, Exec, ◌>>◌}
use go_achat_node.Rpc.{Req}
use go_achat_node.Rpc.Wire.{RpcJson, new_req}
use go_achat_node.App.{Client, login}

-- `NewReq(token, "open", nil)`
abbrev pub opening : {O : Type 0} → RpcJson O → Bytes → Bytes → Req O
opening json uuid token = new_req json uuid token (codes "open") []

-- `post` is the HTTP client, `dial` is `websocket.Dial` of rpcurl(CHAT), and `write` is `Write` of a
-- connection.
module _ {O N W : Type 0} (json : RpcJson O) (post : Bytes → Exec N Bytes) (dial : Exec N W)
    (write : W → Bytes → N → Error × N) where
  -- The error of `Dial` is not looked at: the connection is nil then, and writing to it panics. The
  -- error of `WriteTo` is not looked at either.
  connected : Bytes → Outcome W × N → Exec (Client N) W
  connected uuid (ok ws, n) c =
      (ok ws, record c { net = (write ws (json.marshal_req (opening json uuid c.token)).0 n).1 })
  connected uuid (err e, n) c = (panic, record c { net = n })
  connected uuid (panic, n) c = (panic, record c { net = n })

  unfoldable pub attach : Bytes → Bytes → Bytes → Exec (Client N) W
  unfolding connected
  attach uuid uuid' pwd = do login json post uuid pwd; λ c. connected uuid' (dial c.net) c
