-- ===== src/Tests/Started.antt =====
-- A network on which each peer has started, and the theorems on it.
use mathlib.Core.List.Memᴰ
use go_achat_node.Prelude.{
  ℕ, ◌≤◌, ◌≡◌, ◌≢◌, ◌↔◌, refl, sym, ap, ◌∙◌, false, Bool-cases, inl, inr, Option, none, some, [],
  ◌∷◌, ◌++◌, Memᴰ, Bytes, codes, beq, beq_refl, beq→eq, if◌then◌else◌, pos, length, All, Outcome,
  ok, err, panic, Exec, arith,
}
use go_achat_node.Types.{Message, group_msg, max_pkg, peerid, mailid}
use go_achat_node.Types.Codecs.{CodecLaws}
use go_achat_node.Mailbox.{Reply, pid_normal, pid_mailbox, pid_mailbox_query, pid_mailbox_clean}
use go_achat_node.Mailbox.Cleaning.{Queried}
use go_achat_node.Service.{send_msg}
use go_achat_node.Service.Registry.{
  Handler, Handlers, IsPeer, chat_start, mailbox_start, group_service,
}
use go_achat_node.Service.Forwarding.{IsMailbox}
use go_achat_node.Service.Serving.{chat_start-IsMailbox, send_msg-group_unread}
use go_achat_node.Rpc.Creating.{IsGroupMailbox}
use go_achat_node.Tests.Coder.{codec-CodecLaws, pair, bytes, number, int, put_int, list, put_items}
use go_achat_node.Tests.Formats.{group_codecs, stored_formats, sent_formats}
use go_achat_node.Tests.Letters.{mail_codecs, mail_formats}
use go_achat_node.Tests.Peers.{eve, zoe}
use go_achat_node.Tests.Disk.{Disk, disk, disk-DatabaseLaws, disk-IteratorLaws}

abbrev caller : Bytes
caller = codes "me"

abbrev uuids : ℕ → Bytes
uuids n = codes "u"

abbrev given : Outcome (Option Reply) × Disk → Outcome Bytes × Disk
given (ok (some (w, none)), t) = (ok w, t)
given (ok (some (w, some e)), t) = (err e, t)
given (ok none, t) = (err (codes "timeout"), t)
given (err e, t) = (err e, t)
given (panic, t) = (panic, t)

abbrev unsupported : Exec Disk Bytes
unsupported s = (err (codes "protocol not supported"), s)

dispatch : Handlers Disk → Bytes → Bytes → Exec Disk Bytes
dispatch [] pid input s = unsupported s
dispatch ((p, h) ∷ hs) pid input s =
    let rest = dispatch hs pid input s in if beq p pid then given (h caller uuids input s) else rest

abbrev Distinct : Handlers Disk → Type 0
Distinct [] = Unit
Distinct (p ∷ hs) = All (λ (q : Bytes × Handler Disk). beq p.0 q.0 ≡ false) hs × Distinct hs

All-mem :
    (p : Bytes) (hs : Handlers Disk)
    → All (λ (q : Bytes × Handler Disk). beq p q.0 ≡ false) hs
    → (q : Bytes × Handler Disk) → Memᴰ q hs
    → beq p q.0 ≡ false
All-mem p [] all q m = absurd (Memᴰ.not-nil m)
All-mem p (x ∷ hs) all q (Memᴰ.head e) = ap (λ r. beq p r.0) e ∙ all.0
All-mem p (x ∷ hs) all q (Memᴰ.tail m) = All-mem p hs all.1 q m

dispatch-served :
    (hs : Handlers Disk)
    → Distinct hs
    → (pid : Bytes) (h : Handler Disk) (buf w : Bytes) (s t : Disk) → Memᴰ (pid, h) hs
    → h caller uuids buf s ≡ (ok (some (w, none)), t)
    → dispatch hs pid buf s ≡ (ok w, t)
unfolding dispatch
dispatch-served [] d pid h buf w s t m e = absurd (Memᴰ.not-nil m)
dispatch-served ((p, g) ∷ hs) d pid h buf w s t (Memᴰ.head q) e =
    let same : p ≡ pid = sym (ap (λ r. r.0) q) in
    let handler : g ≡ h = sym (ap (λ r. r.1) q) in rw (same, beq_refl pid) (rw handler (rw e refl))
dispatch-served ((p, g) ∷ hs) d pid h buf w s t (Memᴰ.tail m) e =
    rw (All-mem p hs d.0 (pid, h) m) (dispatch-served hs d.1 pid h buf w s t m e)

dispatch-refused :
    (hs : Handlers Disk) (pid buf : Bytes) (s : Disk)
    → ((h : Handler Disk) → Memᴰ (pid, h) hs → ⊥)
    → dispatch hs pid buf s ≡ unsupported s
unfolding dispatch
dispatch-refused [] pid buf s no_handler = refl
dispatch-refused ((p, g) ∷ hs) pid buf s no_handler = elim (Bool-cases (beq p pid)) [
  | inl e ↦ absurd (no_handler g (Memᴰ.head (rw (beq→eq p pid e) refl)))
  | inr e ↦ rw e (dispatch-refused hs pid buf s (λ h m. no_handler h (Memᴰ.tail m)))
]

abbrev handlers : Handlers Disk
handlers = chat_start disk mail_codecs group_codecs 9 (λ caller uuids input s. (ok none, s))

handlers-Distinct : Distinct handlers
unfolding chat_start mailbox_start group_service pid_normal pid_mailbox pid_mailbox_query
    pid_mailbox_clean beq
handlers-Distinct = (
  (refl, (refl, (refl, (refl, (refl, tt))))),
  (
    (refl, (refl, (refl, (refl, tt)))),
    ((refl, (refl, (refl, tt))), ((refl, (refl, tt)), ((refl, tt), (tt, tt)))),
  ),
)

request : Bytes → Bytes → Bytes → Exec Disk Bytes
request peer pid input s = dispatch handlers pid input s

request-IsPeer : (peer : Bytes) → IsPeer handlers caller uuids request peer
unfolding request
request-IsPeer peer = record {
  served = dispatch-served handlers handlers-Distinct;
  refused = λ pid buf s h. (_, dispatch-refused handlers pid buf s h);
}

chat_start-IsMailbox_example :
    IsMailbox disk disk-DatabaseLaws disk-IteratorLaws mail_codecs mail_formats request (mailid eve)
    × IsGroupMailbox disk disk-DatabaseLaws group_codecs stored_formats sent_formats
        (codes "u")
        caller
        request
        (mailid eve)
chat_start-IsMailbox_example =
    chat_start-IsMailbox disk mail_codecs group_codecs 9 (λ caller uuids input s. (ok none, s))
      disk-DatabaseLaws disk-IteratorLaws mail_formats sent_formats caller uuids request
      (mailid eve) stored_formats (request-IsPeer (mailid eve))

-- zoe greets the group whose id is eve's JID.
abbrev greeting : Message
greeting = record {
  envelope = record {
    id = codes "m1";
    sender = zoe;
    to = [];
    type = group_msg;
    ack = 0;
    ct = pos 7;
    gid = eve;
  };
  payload = record { attrs = []; content = codes "hello" };
  vsn = codes "0.0.2";
}

greeting_small : length (CodecLaws.image mail_formats.message greeting) ≤ max_pkg
unfolding mail_formats codec-CodecLaws pair bytes number int put_int list put_items
greeting_small = omega arith

greeting_apart : (id : Bytes) → codes "m1" ≢ peerid eve ++ id
unfolding peerid
greeting_apart id e = omega (arith, ap (λ (l : Bytes). length l) e)

send_msg-group_unread_example :
    let (sent, t) = send_msg request mail_codecs greeting [] in
    (sent ≡ ok tt)
    × (disk.get t (codes "m1") ≡ ok (CodecLaws.image mail_formats.message greeting))
    × ((x : Message)
        → Queried disk disk-DatabaseLaws disk-IteratorLaws mail_codecs mail_formats t eve x
          ↔ Queried disk disk-DatabaseLaws disk-IteratorLaws mail_codecs mail_formats [] eve x)
send_msg-group_unread_example =
    send_msg-group_unread disk mail_codecs group_codecs 9 (λ caller uuids input s. (ok none, s))
      disk-DatabaseLaws disk-IteratorLaws mail_formats caller uuids request eve greeting []
      (request-IsPeer (peerid eve)) (request-IsPeer (mailid eve)) refl refl (omega arith)
      greeting_apart greeting_small
