-- ===== src/Tests/Prompt.antt =====
-- A console that logs in to a node and talks to a peer, and the theorems on that.
use go_achat_node.Prelude.{
  ◌≡◌, refl, none, some, List, [], ◌∷◌, ◌++◌, Bytes, codes, beq, pos, ok, err, Error, Exec, arith,
}
use go_achat_node.Types.{Message, new_normal_message}
use go_achat_node.Rpc.{string, new_rsp, Node, RpcFn, find, issued, sendmsg, split, join}
use go_achat_node.Rpc.Wire.{adapt, strings, new_req, serve_rpc}
use go_achat_node.App.{Client, login, callrpc}
use go_achat_node.App.Console.{crashed, enqueue, send_line, console_line, console, trim, is_method}
use go_achat_node.App.Chatting.{console_line-sendmsg}
use go_achat_node.App.Login.{post, login-object}
use go_achat_node.App.Prompt.{console-short}
use go_achat_node.App.Config.{
  Flags, Config, default_flags, console as console_command, node_of, starting, achat,
}
use go_achat_node.App.Bootnodes.{AddressesOf, node_of-AddressesOf}
use go_achat_node.Tests.Peers.{eve, zoe}
use go_achat_node.Tests.Json.{json, req_read, rsp_read}

abbrev node : Node (List Message)
node = record { tokens = (codes "tok", pos 9) ∷ []; world = [] }

-- A network that keeps what is sent.
abbrev send : Message → Exec (List Message) (Unit {0})
send m w = (ok tt, w ++ m ∷ [])

abbrev reg : List (Bytes × RpcFn Bytes (List Message))
reg = (codes "sendmsg", sendmsg send eve (codes "m1") (pos 7)) ∷ []

console_line-sendmsg_example :
    (console_line json (codes "tok") (codes "7") zoe (codes " hello  zoe ")
      ≡ ok (
          some (
            some (
                enqueue (
                  send_line json
                    (codes "tok")
                    (codes "7")
                    (codes "hello")
                    ([] ∷ codes "zoe" ∷ []))),
            zoe,
          )))
    × (callrpc json
          (serve_rpc json reg [])
          (send_line json (codes "tok") (codes "7") (codes "hello") ([] ∷ codes "zoe" ∷ []) zoe)
          node
        ≡ (
          ok (new_rsp (codes "7") (string (codes "success")) none),
          record {
            tokens = (codes "tok", pos 9) ∷ [];
            world = new_normal_message (codes "m1") (pos 7) eve zoe (codes "hello  zoe") [] ∷ [];
          },
        ))
unfolding trim split beq is_method adapt strings join find issued send_line new_req new_rsp
console_line-sendmsg_example =
    console_line-sendmsg json (codes "tok") send eve reg [] (codes "7") (codes "m1") zoe
      (codes " hello  zoe ") (codes "hello") (pos 7) ([] ∷ codes "zoe" ∷ []) node
      (new_normal_message (codes "m1") (pos 7) eve zoe (codes "hello  zoe") [] ∷ [])
      (refl, refl, refl, refl, refl, refl) refl refl refl refl (req_read _) (rsp_read _) refl

abbrev stranger : Client (Node (List Message))
stranger = record { token = []; net = node }

login-object_example :
    login json
      (post json (codes "{}") [] [] (codes "new") (pos 8))
      (codes "7")
      (codes "{}")
      stranger
    ≡ (err (codes "1002 : auth_fail"), stranger)
unfolding beq new_req adapt strings join new_rsp
login-object_example =
    login-object json (codes "{}") [] [] (codes "new") (pos 8) (codes "7") stranger refl refl
      (req_read _) (rsp_read _)

abbrev typed : List (Bytes × Bytes)
typed =
    (codes "7", codes "conns") ∷ (codes "8", codes "opensession bob") ∷ (codes "9", codes "hi") ∷ []

console-short_example :
    console json
      (codes "tok")
      []
      ((codes "8", codes "opensession bob") ∷ (codes "9", codes "hi") ∷ [])
    ≡ ([], crashed)
unfolding beq trim split
console-short_example =
    console-short json (codes "tok") (codes "8") (codes "opensession bob") (codes "bob") []
      ((codes "9", codes "hi") ∷ []) refl refl refl (omega arith)

abbrev me_id : Config → Bytes × Error
me_id c = (codes "me", none)

abbrev flags : Flags
flags = record default_flags { bootnodes = codes "a,b" }

node_of-AddressesOf_example : AddressesOf flags console_command (starting me_id flags).config
unfolding node_of achat default_flags beq
node_of-AddressesOf_example =
    node_of-AddressesOf me_id console_command flags (starting me_id flags) refl refl
