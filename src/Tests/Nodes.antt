-- ===== src/Tests/Nodes.antt =====
-- A node that receives messages, and the theorems on what is sent to it.
use go_achat_node.Prelude.{
  ◌≤◌, ◌≡◌, inl, inr, refl, true, false, Option, none, some, List, [], ◌∷◌, Memᴰ, Bytes, codes, pos,
  length, ok, err, Error, Exec, Option-cases, arith,
}
use go_achat_node.Types.{Message, normal_msg, max_pkg, peerid}
use go_achat_node.Types.Codecs.{CodecLaws}
use go_achat_node.Group.Service.{success}
use go_achat_node.Mailbox.{Reply, message_from_reader}
use go_achat_node.Service.{send_msg}
use go_achat_node.Service.Pump.{Chat, new_chat, Event, queued, Step, Run, handed_of}
use go_achat_node.Service.Receiving.{
  Case, enter, over, select, normal_request, normal_request-select, normal_handler, IsNode,
}
use go_achat_node.Service.Arrival.{send_msg-comes, send_msg-stopped_loses}
use go_achat_node.Tests.Coder.{codec-CodecLaws, pair, bytes, number, int, put_int, list, put_items}
use go_achat_node.Tests.Letters.{mail_codecs, mail_formats}
use go_achat_node.Tests.Peers.{eve, zoe, hello}

abbrev greeting : Message
greeting = record {
  envelope = record {
    id = codes "m2";
    sender = zoe;
    to = eve;
    type = normal_msg;
    ack = 0;
    ct = pos 8;
    gid = [];
  };
  payload = record { attrs = []; content = codes "hello again" };
  vsn = codes "0.0.2";
}

greeting_fits : length (CodecLaws.image mail_formats.message greeting) ≤ max_pkg
unfolding mail_formats codec-CodecLaws pair bytes number int put_int list put_items
greeting_fits = omega arith

given : Option (Reply × Chat) → Exec Chat Bytes → Exec Chat Bytes
given (some ((w, none), d)) other c = (ok w, d)
given (some ((w, some e), d)) other c = (err e, d)
given none other c = other c

-- The case of the channel is taken where it is ready.
request : Bytes → Bytes → Bytes → Exec Chat Bytes
unfolding given
request peer pid buf c =
    given (normal_handler mail_codecs enter buf c)
      (given (normal_handler mail_codecs over buf c) (λ d. (err (codes "timeout"), d))) c

abbrev Taken : Message × Error → Chat → Type 0
Taken p c =
    (taken : Case) × (v : Bytes) × (e : Chat) × (normal_request taken p c ≡ some ((v, none), e))
    × (given (normal_request enter p c)
          (given (normal_request over p c) (λ d. (err (codes "timeout"), d))) c
        ≡ (ok v, e))

entered : (m : Message) (c d : Chat) → select enter m c ≡ some d → Taken (m, none) c
unfolding given normal_request
entered m c d e = (enter, success, d, rw e refl, rw e refl)

given-Taken :
    (p : Message × Error) (case : Case) (w : Bytes) (c d : Chat)
    → normal_request case p c ≡ some ((w, none), d)
    → Taken p c
unfolding given normal_request
given-Taken (m, some x) case w c d h = absurd cc
given-Taken (m, none) enter w c d h = entered m c d (normal_request-select enter m w c d h)
given-Taken (m, none) over w c d h =
    let e = normal_request-select over m w c d h in
    elim (Option-cases (select enter m c)) [
      | inl waits ↦ (over, success, d, rw e refl, rw (waits, e) refl)
      | inr (x, went) ↦ entered m c x went
    ]

node : (peer : Bytes) → IsNode mail_codecs request peer
unfolding request normal_handler
node peer = record {
  receives = λ case buf w c d h. given-Taken (message_from_reader mail_codecs buf) case w c d h;
}

-- The service waits for messages, and has one in its channel.
abbrev waiting : Chat
waiting = record new_chat { handle_msg_fn = codes "f" ∷ []; recv_msg_ch = hello ∷ [] }

abbrev halted : Chat
halted = record waiting { closed = true; running = false }

send_msg-comes_example :
    let (sent, d) = send_msg request mail_codecs greeting waiting in
    (sent ≡ ok tt)
    × Step waiting (queued greeting) d
    × ((e : Chat) × (es : List Event) × Run d es e
        × (handed_of es ≡ hello ∷ greeting ∷ [])
        × (e.recv_msg_ch ≡ [])
        × ((f : Bytes)
            → Memᴰ f waiting.handle_msg_fn
            → Memᴰ {A = Bytes × Message} (f, greeting) e.started))
send_msg-comes_example =
    send_msg-comes mail_codecs mail_formats request greeting waiting (node (peerid eve)) refl
      greeting_fits refl refl (omega arith)

send_msg-stopped_loses_example :
    let (sent, d) = send_msg request mail_codecs greeting halted in
    (sent ≡ ok tt) × ((es : List Event) (e : Chat) → Run d es e → e.started ≡ [])
send_msg-stopped_loses_example =
    send_msg-stopped_loses mail_codecs mail_formats request greeting halted (node (peerid eve)) refl
      greeting_fits refl refl
