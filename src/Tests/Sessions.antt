-- ===== src/Tests/Sessions.antt =====
-- eve opens a session at her node, after zoe has written to her, and the theorems on that.
use go_achat_node.Prelude.{
  ◌≡◌, refl, none, some, beq, List, [], ◌∷◌, ◌++◌, Bytes, codes, pos, ok, err, panic, Bool-cases,
  inl, inr, Error, Exec, Outcome, sym, ap, ℕ, if◌then◌else◌,
}
use go_achat_node.Types.{Message, MessageList, new_message, new_normal_message, peerid}
use go_achat_node.Service.{send_msg}
use go_achat_node.Service.Forwarding.{forwarded}
use mathlib.Core.List.Permᴰ
use go_achat_node.Rpc.Conns.{conns}
use go_achat_node.Rpc.Listing.{Asked, Relayed, Deduplicated, conns-Relayed}
use go_achat_node.Service.Pump.{without_fid}
use go_achat_node.Rpc.{Network, network, Node, new_rsp, Req}
use go_achat_node.Rpc.Sessions.{Session, has_token, open_session}
use go_achat_node.Rpc.Opening.{IsUp, IsReadable, waiting, open_session_empties}
use go_achat_node.Tests.Disk.{Disk, disk, disk-DatabaseLaws, disk-IteratorLaws}
use go_achat_node.Tests.Letters.{mail_codecs, mail_formats}
use go_achat_node.Tests.Peers.{eve, hello}
use go_achat_node.Tests.Post.{after_hello, hello_small}
use go_achat_node.Tests.Network.{
  request, request-IsMailbox, jid_small, after_hello-IsKeyed, clean_small,
}

-- A websocket that is the list of what it shows.
abbrev pub write : Message → MessageList → Error × MessageList
write m w = (none, w ++ m ∷ [])

pub write-IsUp : IsUp write (λ w. w)
write-IsUp = record { shows = λ m w. refl }

abbrev pub hear : Req Bytes
hear = record { id = []; token = codes "tok"; method = codes "open"; params = [] }

abbrev pub session : Session Disk MessageList
session = record {
  tokens = (codes "tok", pos 9) ∷ [];
  net = after_hello;
  handle_msg_fn = [];
  ws = [];
}

pub session-IsReadable :
    IsReadable disk disk-DatabaseLaws disk-IteratorLaws mail_codecs mail_formats write request eve
      after_hello
session-IsReadable = record {
  node = request-IsMailbox;
  keyed = after_hello-IsKeyed;
  short = jid_small;
  small = clean_small;
}

open_session_empties_example :
    let (answer, t) =
      open_session write request mail_codecs eve (codes "u") (pos 9) (codes "f") hear session in
    (answer ≡ ok (some (codes "f")))
    × (waiting disk mail_codecs eve t.net ≡ [])
    × (t.handle_msg_fn ≡ codes "f" ∷ [])
unfolding has_token beq without_fid
open_session_empties_example =
    open_session_empties disk disk-DatabaseLaws disk-IteratorLaws mail_codecs mail_formats write
      request eve (codes "u") (pos 9) (codes "f") hear session refl session-IsReadable

-- What zoe's message leaves behind, when eve is away.
pub after_sending : after_hello ≡ (send_msg request mail_codecs hello []).1
unfolding new_message new_normal_message request peerid beq
after_sending = sym (
    ap (λ (p : Outcome (Unit {0}) × Disk). p.1)
      (forwarded disk disk-DatabaseLaws disk-IteratorLaws mail_codecs mail_formats request eve hello
        [] request-IsMailbox refl refl hello_small refl))

-- Two peers, of which one is found, and a relay that has them three times.
abbrev find_peer : Bytes → Exec Disk (List Bytes)
find_peer id s = if beq id (codes "p") then (ok (codes "addr" ∷ []), s) else (err (codes "lost"), s)

abbrev peers : Disk → (List Bytes × List (Bytes × List Bytes)) × ℕ
peers s = ((codes "p" ∷ [], (codes "r", codes "p" ∷ codes "q" ∷ codes "p" ∷ []) ∷ []), 4)

find_peer-calm : (id : Bytes) (s : Disk) → (find_peer id s).0 ≡ panic → ⊥
find_peer-calm id s h = elim (Bool-cases (beq id (codes "p"))) [
  | inl e ↦ cc (e, h)
  | inr e ↦ cc (e, h)
]

abbrev nowhere : Node Disk
nowhere = record { tokens = []; world = [] }

conns-Relayed_example :
    (w : Network) × (n₁ : Disk) × (n₂ : Disk) × (conns find_peer peers (λ l. l) hear nowhere
      ≡ (ok (new_rsp [] (network w) none), record nowhere { world = n₂ }))
    × (w.total ≡ 4)
    × Asked find_peer [] (codes "p" ∷ []) w.direct n₁
    × Relayed find_peer n₁ ((codes "r", codes "p" ∷ codes "q" ∷ codes "p" ∷ []) ∷ []) w.relay n₂
    × Deduplicated find_peer w.relay
conns-Relayed_example =
    conns-Relayed find_peer find_peer-calm (λ l. l) (λ l. Permᴰ.refl l) peers hear nowhere
