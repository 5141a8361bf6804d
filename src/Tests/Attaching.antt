-- ===== src/Tests/Attaching.antt =====
-- eve's console attaches to her node, and the theorems on that.
use go_achat_node.Types.{Message, new_message, new_sys_message, new_normal_message}
use go_achat_node.Prelude.{
  ltb, if◌then◌else◌, All, ◌≡◌, refl, ap, ◌∙◌, none, List, [], ◌∷◌, Bytes, codes, beq, pos, ok,
  Error, Exec,
}
use go_achat_node.Types.Codecs.{CodecLaws, to_bytes, to_bytes_lem}
use go_achat_node.Rpc.{join, new_rsp, Node}
use go_achat_node.Rpc.Wire.{adapt, strings, new_req}
use go_achat_node.Rpc.Sessions.{Session, greeting, open_session}
use go_achat_node.Rpc.Opening.{IsReadable, waiting}
use go_achat_node.App.{Client}
use go_achat_node.App.Attach.{attach, opening}
use go_achat_node.App.Login.{post}
use go_achat_node.App.Reading.{MessageJson, IsText, write_frame, on_screen, attach-read_loop}
use go_achat_node.Tests.Disk.{Disk, disk, disk-DatabaseLaws, disk-IteratorLaws}
use go_achat_node.Tests.Letters.{mail_codecs, mail_formats}
use go_achat_node.Tests.Json.{json, req_read, rsp_read}
use go_achat_node.Tests.Network.{
  request, request-IsMailbox, jid_small, after_hello-IsKeyed, after_hello-messages, clean_small,
}
use go_achat_node.Tests.Peers.{eve, hello}
use go_achat_node.Tests.Post.{after_hello}

-- The world behind the node is the frames that its websocket got.
abbrev node : Node (List Bytes)
node = record { tokens = []; world = [] }

abbrev stranger : Client (Node (List Bytes))
stranger = record { token = []; net = node }

abbrev posted : Bytes → Exec (Node (List Bytes)) Bytes
posted = post json (codes "secret") [] [] (codes "tok") (pos 9)

abbrev dial : Exec (Node (List Bytes)) (Unit {0})
dial n = (ok tt, n)

abbrev send : Unit {0} → Bytes → Node (List Bytes) → Error × Node (List Bytes)
send ws frame n = (none, record n { world = frame ∷ n.world })

abbrev known : Node (List Bytes)
known = record { tokens = (codes "tok", pos 9) ∷ []; world = [] }

-- A format that, as JSON does, replaces bytes of the content that are no text. The rest is binary.
abbrev as_text : Bytes → Bytes
as_text [] = []
as_text (b ∷ bs) = let rest = as_text bs in (if ltb b 128 then b else 63) ∷ rest

abbrev messages : MessageJson
messages = record {
  to_json = λ m.
      to_bytes mail_codecs.message
        (record m { payload = record m.payload { content = as_text m.payload.content } });
  from_json = mail_codecs.message.unmarshal;
}

read_back :
    (m : Message)
    → record m { payload = record m.payload { content = as_text m.payload.content } } ≡ m
    → IsText messages m
read_back m same =
    ap mail_codecs.message.unmarshal (to_bytes_lem mail_formats.message _)
    ∙ CodecLaws.unmarshal-image mail_formats.message _
    ∙ ap (λ (m : Message). (m, none)) same

abbrev opened : Session Disk (List Bytes)
opened = record {
  tokens = (codes "tok", pos 9) ∷ [];
  net = after_hello;
  handle_msg_fn = [];
  ws = [];
}

opened-IsReadable :
    IsReadable disk disk-DatabaseLaws disk-IteratorLaws mail_codecs mail_formats
      (write_frame messages)
      request
      eve
      after_hello
opened-IsReadable = record {
  node = request-IsMailbox;
  keyed = after_hello-IsKeyed;
  short = jid_small;
  small = clean_small;
}

IsText-shown : All (IsText messages) (
    greeting
      (codes "u")
      (pos 9)
      (opening json (codes "2") (codes "tok"))
      (codes "result")
      (codes "success")
    ∷ waiting disk mail_codecs eve after_hello)
unfolding new_message new_sys_message new_normal_message greeting
IsText-shown = rw after_hello-messages (read_back _ refl, (read_back hello refl, tt))

attach-read_loop_example :
    let (outcome, c') =
      attach json posted dial send (codes "1") (codes "2") (codes "secret") stranger in
    let frame = (json.marshal_req (opening json (codes "2") c'.token)).0 in
    let req = (json.unmarshal_req frame).0 in
    let t =
      (open_session
        (write_frame messages)
        request
        mail_codecs
        eve
        (codes "u")
        (pos 9)
        (codes "f")
        req
        opened).1 in
    (outcome ≡ ok tt)
    × (c'.net ≡ (send tt frame known).1)
    × (on_screen messages t.ws
        ≡ greeting
            (codes "u")
            (pos 9)
            (opening json (codes "2") (codes "tok"))
            (codes "result")
            (codes "success")
          ∷ waiting disk mail_codecs eve after_hello)
    × (waiting disk mail_codecs eve t.net ≡ [])
unfolding beq new_req adapt strings join new_rsp
attach-read_loop_example =
    attach-read_loop json (codes "secret") [] [] (codes "tok") (pos 9) dial send messages disk
      disk-DatabaseLaws disk-IteratorLaws mail_codecs mail_formats request eve (codes "1")
      (codes "2") stranger tt known (codes "u") (pos 9) (codes "f") opened refl refl (req_read _)
      (rsp_read _) refl (req_read _) refl refl IsText-shown opened-IsReadable
