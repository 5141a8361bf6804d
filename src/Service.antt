-- ===== src/Service.antt =====
-- service.go: `ChatService`, the client of the mailbox and of the other peers.
pub mod Forwarding
pub mod Reading
pub mod Pump
pub mod Starting
pub mod Registry
pub mod Serving
pub mod Receiving
pub mod Draining
pub mod Arrival
use go_achat_node.Prelude.{
  ◌≡◌, List, [], ◌∷◌, Bytes, codes, if◌then◌else◌, eqb_ℤ, Outcome, ok, err, panic, Exec, pure, fail,
  attempt, ◌>>=◌, ◌>>◌,
}
use go_achat_node.Types.{Jid, Message, MessageBag, normal_msg, group_msg, peerid, mailid}
use go_achat_node.Types.Codecs.{to_bytes}
use go_achat_node.Mailbox.{MailCodecs, pid_normal, pid_group, pid_mailbox, query_msg, clean_msg}

-- `request` is `RequestWithTimeout` of the p2p service.
module _ {N : Type 0} (request : Bytes → Bytes → Bytes → Exec N Bytes) (codecs : MailCodecs) where
  -- The mailbox is asked only where the direct request failed.
  unfoldable pub or_mailbox : Outcome Bytes → Jid → Bytes → Exec N (Unit {0})
  or_mailbox (ok _) jid buf n = (ok tt, n)
  or_mailbox (err _) jid buf n = (do request (mailid jid) pid_mailbox buf; pure tt) n
  or_mailbox panic jid buf n = (panic, n)

  unfoldable pub send_to : Jid → Bytes → Message → Exec N (Unit {0})
  unfolding or_mailbox
  send_to jid pid msg = do
    let buf = to_bytes codecs.message msg
    direct ← attempt (request (peerid jid) pid buf)
    or_mailbox direct jid buf

  -- `SendMsg`: a normal message goes to its receiver, a group message to its group.
  unfoldable pub send_msg : Message → Exec N (Unit {0})
  unfolding send_to
  send_msg msg =
      if eqb_ℤ msg.envelope.type normal_msg
      then send_to msg.envelope.to pid_normal msg
      else if eqb_ℤ msg.envelope.type group_msg
      then send_to msg.envelope.gid pid_group msg
      else fail (codes "not support yet")

  -- `ChatService.QueryMsg`
  unfoldable pub query_own : Jid → Exec N MessageBag
  query_own myid = query_msg request codecs myid

  -- `ChatService.CleanMsg`: nothing is asked for no ids.
  unfoldable pub clean_own : Jid → List Bytes → Exec N (Unit {0})
  clean_own myid [] = pure tt
  clean_own myid (id ∷ ids) = clean_msg request codecs myid (id ∷ ids)
