-- ===== src/Service/Forwarding.antt =====
-- A message for a peer that is away goes through the mailbox.
use go_achat_node.Prelude.{
  ◌≤◌, ◌≡◌, ◌≢◌, inl, refl, sym, ap, true, eqb_ℤ, none, [], Memᴰ, Bytes, length, ok, err, Exec,
  arith,
}
use go_achat_node.Ldb.{Database}
use go_achat_node.Ldb.Laws.{DatabaseLaws, IteratorLaws}
use go_achat_node.Types.{Jid, Message, MessageBag, normal_msg, max_pkg, peerid, mailid}
use go_achat_node.Types.Codecs.{CodecLaws, to_bytes_lem}
use go_achat_node.Group.Service.{success}
use go_achat_node.Mailbox.{
  MailCodecs, MailLaws, pid_normal, pid_mailbox, pid_mailbox_query, pid_mailbox_clean, put_msg,
  do_query_msg, msg_handler, query_handler, clean_handler, query_msg,
}
use go_achat_node.Mailbox.Cleaning.{put_msg_kept}
use go_achat_node.Mailbox.Delivery.{msg_handler-put_msg, query_handler_lem}
use go_achat_node.Service.{send_msg, query_own}

module _ {S : Type 0} (db : Database S) (laws : DatabaseLaws db) (iterator : IteratorLaws db)
    (codecs : MailCodecs) (formats : MailLaws codecs) where
  -- A peer `mb` runs the mailbox's handlers on the store: a request for one of its protocols is
  -- answered with what the handler wrote, where the handler returned no error.
  pub record IsMailbox (request : Bytes → Bytes → Bytes → Exec S Bytes) (mb : Bytes) : Type 0 where
    pub puts :
        (buf w : Bytes) (s t : S)
        → msg_handler db codecs buf s ≡ (ok (w, none), t)
        → request mb pid_mailbox buf s ≡ (ok w, t)
    pub queries :
        (buf w : Bytes) (s t : S)
        → query_handler db codecs buf s ≡ (ok (w, none), t)
        → request mb pid_mailbox_query buf s ≡ (ok w, t)
    pub cleans :
        (buf w : Bytes) (s t : S)
        → clean_handler db codecs buf s ≡ (ok (w, none), t)
        → request mb pid_mailbox_clean buf s ≡ (ok w, t)

  module _ (request : Bytes → Bytes → Bytes → Exec S Bytes) (jid : Jid) where
    pub forwarded :
        (m : Message) (s : S) {e : Bytes}
        → IsMailbox request (mailid jid)
        → m.envelope.to ≡ jid
        → m.envelope.type ≡ normal_msg
        → length (CodecLaws.image formats.message m) ≤ max_pkg
        → request (peerid jid) pid_normal (CodecLaws.image formats.message m) s ≡ (err e, s)
        → send_msg request codecs m s ≡ (ok tt, (put_msg db codecs m s).1)
    unfolding send_msg
    forwarded m s node to_jid normal small away =
        let is_normal : eqb_ℤ m.envelope.type normal_msg ≡ true = ground arith in
        let stored =
          node.puts _ success s (put_msg db codecs m s).1
            (msg_handler-put_msg db laws codecs formats m s small (inl normal)) in
        let image = to_bytes_lem formats.message m in
        rw is_normal (simp (image, to_jid, away, stored))

    pub queried :
        (s : S)
        → IsMailbox request (mailid jid)
        → length (CodecLaws.image formats.jid jid) ≤ 128
        → query_own request codecs jid s ≡ (ok (do_query_msg db codecs s jid), s)
    unfolding query_own query_msg
    queried s node small =
        let answer = node.queries _ _ s s (query_handler_lem db laws codecs formats jid s small) in
        simp (CodecLaws.marshal_eq formats.jid, answer, CodecLaws.unmarshal-image formats.bag)

    -- A normal message with a non-empty id to a peer that cannot be reached, whose mailbox can, is sent
    -- with no error, and the receiver's next query succeeds and has it. The message has at most 2048
    -- bytes and the encoded JID at most 128, the limits of the mailbox.
    pub store_and_forward :
        (m : Message) (s : S) {e : Bytes}
        → IsMailbox request (mailid jid)
        → m.envelope.to ≡ jid
        → m.envelope.type ≡ normal_msg
        → m.envelope.id ≢ []
        → length (CodecLaws.image formats.message m) ≤ max_pkg
        → length (CodecLaws.image formats.jid jid) ≤ 128
        → request (peerid jid) pid_normal (CodecLaws.image formats.message m) s ≡ (err e, s)
        → let (sent, s₁) = send_msg request codecs m s in
          (sent ≡ ok tt)
          × ((bag : MessageBag) × (query_own request codecs jid s₁ ≡ (ok bag, s₁))
              × Memᴰ m bag.messages)
    store_and_forward m s node to_jid normal some_id small short away =
        let s₁ = (put_msg db codecs m s).1 in
        rw (forwarded m s node to_jid normal small away) (
          refl,
          (
            do_query_msg db codecs s₁ jid,
            queried s₁ node short,
            put_msg_kept db laws iterator codecs formats m s jid (ap peerid (sym to_jid)) some_id,
          ),
        )
