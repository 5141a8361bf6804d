-- ===== src/Tests/Arriving.antt =====
-- zoe types a line to eve, who is away and opens a session later, and the theorem on that.
use go_achat_node.Prelude.{
  ◌≡◌, refl, sym, ap, true, some, ltb_ℤ, none, List, [], ◌∷◌, Memᴰ, Bytes, codes, beq, ne_of_beq,
  pos, Outcome, ok,
}
use go_achat_node.Types.{peerid, new_message, new_normal_message}
use go_achat_node.Service.{send_msg}
use go_achat_node.Service.Forwarding.{forwarded}
use go_achat_node.Rpc.{text, Rsp, string, new_rsp, Node, RpcFn, find, issued, sendmsg, split, join}
use go_achat_node.Rpc.Wire.{str2x, adapt, strings, new_req, serve_rpc}
use go_achat_node.Rpc.Sessions.{has_token, open_session}
use go_achat_node.App.{callrpc}
use go_achat_node.App.Console.{is_method, trim, send_line}
use go_achat_node.App.Chatting.{IsReadReq, IsTalk, console_line-sendmsg}
use go_achat_node.App.Arriving.{console_line-open_session}
use go_achat_node.Tests.Disk.{Disk, disk, disk-DatabaseLaws, disk-IteratorLaws}
use go_achat_node.Tests.Letters.{mail_codecs, mail_formats}
use go_achat_node.Tests.Peers.{eve, zoe, hello}
use go_achat_node.Tests.Post.{after_hello, hello_small}
use go_achat_node.Tests.Network.{request, request-IsMailbox}
use go_achat_node.Tests.Json.{json, req_read, rsp_read}
use go_achat_node.Tests.Sessions.{write, write-IsUp, hear, session, session-IsReadable}

abbrev reg : List (Bytes × RpcFn Bytes Disk)
reg = (codes "sendmsg", sendmsg (send_msg request mail_codecs) zoe (codes "m1") (pos 7)) ∷ []

abbrev node : Node Disk
node = record { tokens = (codes "tok", pos 9) ∷ []; world = [] }

hello-IsTalk : IsTalk (codes "hello") (codes "hello") []
unfolding trim split beq is_method
hello-IsTalk = (refl, refl, refl, refl, refl, refl)

no_object : adapt json (text eve ∷ str2x (codes "hello" ∷ [])) ≡ none
unfolding adapt strings join beq
no_object = refl

known :
    find reg (codes "sendmsg")
    ≡ some (sendmsg {O = Bytes} (send_msg request mail_codecs) zoe (codes "m1") (pos 7))
unfolding find beq
known = refl

valid : ltb_ℤ (pos 0) (issued node.tokens (codes "tok")) ≡ true
unfolding issued beq
valid = refl

said :
    send_msg request mail_codecs
      (new_normal_message (codes "m1") (pos 7) zoe eve (trim (codes "hello")) [])
      []
    ≡ (ok tt, after_hello)
unfolding new_message new_normal_message request peerid beq trim
said =
    forwarded disk disk-DatabaseLaws disk-IteratorLaws mail_codecs mail_formats request eve hello []
      request-IsMailbox refl refl hello_small refl

req_back : IsReadReq json (send_line json (codes "tok") (codes "7") (codes "hello") [] eve)
unfolding send_line new_req adapt strings join beq
req_back = req_read _

typed :
    after_hello
    ≡ (callrpc json
        (serve_rpc json reg [])
        (send_line json (codes "tok") (codes "7") (codes "hello") [] eve)
        node).1.world
unfolding new_rsp beq
typed =
    let (_, answered) =
      console_line-sendmsg json (codes "tok") (send_msg request mail_codecs) zoe reg [] (codes "7")
        (codes "m1") eve (codes "hello") (codes "hello") (pos 7) [] node after_hello hello-IsTalk
        refl no_object known valid req_back (rsp_read _) said in
    sym (ap (λ (p : Outcome Rsp × Node Disk). p.1.world) answered)

console_line-open_session_example :
    ((callrpc json
        (serve_rpc json reg [])
        (send_line json (codes "tok") (codes "7") (codes "hello") [] eve)
        node).0
      ≡ ok (new_rsp (codes "7") (string (codes "success")) none))
    × Memᴰ hello
        (open_session write request mail_codecs eve
          (codes "u")
          (pos 9)
          (codes "f")
          hear
          session).1.ws
unfolding new_rsp trim new_message new_normal_message request peerid beq has_token
console_line-open_session_example =
    console_line-open_session disk disk-DatabaseLaws disk-IteratorLaws mail_codecs mail_formats
      write request (λ w. w) write-IsUp json (codes "tok") reg [] (codes "7") (codes "m1") (pos 7)
      zoe eve (codes "hello") (codes "hello") [] node (codes "u") (codes "f") (pos 9) hear session
      hello-IsTalk refl no_object known valid req_back (rsp_read _) (ne_of_beq _ _ refl) hello_small
      refl typed refl session-IsReadable
