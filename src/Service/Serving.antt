-- ===== src/Service/Serving.antt =====
-- What a started node promises to the others, and what becomes of messages to a group.
use mathlib.Core.List.Memᴰ
use go_achat_node.Prelude.{
  ℕ, ◌<◌, ◌≤◌, ◌≡◌, ◌≢◌, ◌↔◌, refl, ap, ◌∙◌, true, false, none, [], ◌∷◌, ◌++◌, Memᴰ, Bytes, beq,
  beq_refl, eqb_ℤ, length, All, ok, Exec, inr, arith,
}
use go_achat_node.Ldb.{Database}
use go_achat_node.Ldb.Laws.{DatabaseLaws, IteratorLaws}
use go_achat_node.Types.{Gid, Message, normal_msg, group_msg, max_pkg, peerid, mailid}
use go_achat_node.Types.Codecs.{CodecLaws, to_bytes_lem}
use go_achat_node.Group.{GroupRsp, GroupCodecs, StoredLaws, SentLaws}
use go_achat_node.Group.Service.{success, update_handler}
use go_achat_node.Mailbox.{
  MailCodecs, MailLaws, pid_normal, pid_group, pid_mailbox, pid_mailbox_query, pid_mailbox_clean,
  put_msg,
}
use go_achat_node.Mailbox.Cleaning.{Queried, get-put_msg, put_msg_outside}
use go_achat_node.Mailbox.Delivery.{msg_handler-put_msg}
use go_achat_node.Mailbox.Intrusion.{short_peerid}
use go_achat_node.Service.{send_msg}
use go_achat_node.Service.Forwarding.{IsMailbox}
use go_achat_node.Service.Registry.{
  Handler, Handlers, pid_group_update, group_service, mailbox_start, chat_start, IsPeer, after,
  resp,
}
use go_achat_node.Rpc.Creating.{IsGroupMailbox}

abbrev Differs : Bytes → {S : Type 0} → Bytes × Handler S → Type 0
Differs pid p = beq p.0 pid ≡ false

-- A protocol has no handler where it differs from all that have one.
unserved :
    {S : Type 0} (pid : Bytes) (handlers : Handlers S)
    → All (Differs pid) handlers
    → (h : Handler S) → Memᴰ (pid, h) handlers
    → ⊥
unserved pid [] all h m = absurd (Memᴰ.not-nil m)
unserved pid (p ∷ hs) all h (Memᴰ.head e) =
    let same : pid ≡ p.0 = ap (λ q. q.0) e in
    let differs : beq p.0 pid ≡ false = all.0 in cc (beq_refl pid)
unserved pid (p ∷ hs) all h (Memᴰ.tail m) = unserved pid hs all.1 h m

module _ {S : Type 0} (db : Database S) (codecs : MailCodecs) (groups : GroupCodecs) (fuel : ℕ)
    (normal : Handler S) where
  no_group : (h : Handler S) → Memᴰ (pid_group, h) (chat_start db codecs groups fuel normal) → ⊥
  unfolding chat_start pid_normal pid_mailbox pid_mailbox_query pid_mailbox_clean pid_group beq
  no_group =
      unserved pid_group (chat_start db codecs groups fuel normal)
        (refl, (refl, (refl, (refl, (refl, (refl, tt))))))

  module _ (laws : DatabaseLaws db) (iterator : IteratorLaws db) (formats : MailLaws codecs)
      (sent : SentLaws groups) (caller : Bytes) (uuids : ℕ → Bytes)
      (request : Bytes → Bytes → Bytes → Exec S Bytes) (mb : Bytes) where
    serves_mailbox :
        IsPeer (chat_start db codecs groups fuel normal) caller uuids request mb
        → IsMailbox db laws iterator codecs formats request mb
    unfolding chat_start after
    serves_mailbox peer = record {
      puts = λ buf w s t h.
          peer.served pid_mailbox _ buf w s t (Memᴰ.tail (Memᴰ.tail (Memᴰ.head refl))) (rw h refl);
      queries = λ buf w s t h.
          peer.served pid_mailbox_query _ buf w s t (Memᴰ.tail (Memᴰ.head refl)) (rw h refl);
      cleans = λ buf w s t h.
          peer.served pid_mailbox_clean _ buf w s t
            (Memᴰ.tail (Memᴰ.tail (Memᴰ.tail (Memᴰ.head refl)))) (rw h refl);
    }

    answered :
        (buf : Bytes) (r : GroupRsp) (s t : S)
        → update_handler db groups (uuids 0) caller buf s ≡ (ok (r, none), t)
        → IsPeer (chat_start db codecs groups fuel normal) caller uuids request mb
        → request mb pid_group_update buf s ≡ (ok (CodecLaws.image sent.group_rsp r), t)
    unfolding chat_start after mailbox_start group_service resp
    answered buf r s t h peer =
        peer.served pid_group_update _ buf _ s t
          (Memᴰ.tail (Memᴰ.tail (Memᴰ.tail (Memᴰ.tail (Memᴰ.tail (Memᴰ.head refl))))))
          (rw h (rw (CodecLaws.marshal_eq sent.group_rsp r) refl))

    -- A peer that has started serves as a mailbox, for messages and for groups: it answers puts,
    -- queries and cleans, and creations and updates of groups, with what the handlers write.
    pub chat_start-IsMailbox :
        (stored : StoredLaws groups)
        → IsPeer (chat_start db codecs groups fuel normal) caller uuids request mb
        → IsMailbox db laws iterator codecs formats request mb
          × IsGroupMailbox db laws groups stored sent (uuids 0) caller request mb
    chat_start-IsMailbox stored peer =
        (serves_mailbox peer, record { updates = λ buf r s t h. answered buf r s t h peer })

  module _ (laws : DatabaseLaws db) (iterator : IteratorLaws db) (formats : MailLaws codecs)
      (caller : Bytes) (uuids : ℕ → Bytes) (request : Bytes → Bytes → Bytes → Exec S Bytes)
      (gid : Gid) where
    abbrev Started : Bytes → Type 0
    Started = IsPeer (chat_start db codecs groups fuel normal) caller uuids request

    send_msg-group :
        (m : Message) (s : S)
        → Started (peerid gid)
        → Started (mailid gid)
        → m.envelope.gid ≡ gid
        → m.envelope.type ≡ group_msg
        → length (CodecLaws.image formats.message m) ≤ max_pkg
        → send_msg request codecs m s ≡ (ok tt, (put_msg db codecs m s).1)
    unfolding send_msg chat_start after
    send_msg-group m s group_peer box to_gid is_group small =
        let other : eqb_ℤ m.envelope.type normal_msg ≡ false = ground arith in
        let group : eqb_ℤ m.envelope.type group_msg ≡ true = ground arith in
        let image = to_bytes_lem formats.message m in
        let (e, away) =
          group_peer.refused pid_group (CodecLaws.image formats.message m) s no_group in
        let stored =
          box.served pid_mailbox _ (CodecLaws.image formats.message m) success s
            (put_msg db codecs m s).1 (Memᴰ.tail (Memᴰ.tail (Memᴰ.head refl)))
            (rw (msg_handler-put_msg db laws codecs formats m s small (inr is_group)) refl) in
        rw (other, group) (simp (image, to_gid, away, stored))

    -- A group message whose receiver is shorter than a peer id is sent with no error where both
    -- the peer of the group and its mailbox have started, and the mailbox then holds it with
    -- its own id as the key. A query for the group is answered with the same messages as
    -- before. The message is within its limit of size, and its id does not start with the peer
    -- id of the group.
    pub send_msg-group_unread :
        (m : Message) (s : S)
        → Started (peerid gid)
        → Started (mailid gid)
        → m.envelope.gid ≡ gid
        → m.envelope.type ≡ group_msg
        → length m.envelope.to < 53
        → ((id : Bytes) → m.envelope.id ≢ peerid gid ++ id)
        → length (CodecLaws.image formats.message m) ≤ max_pkg
        → let (sent, t) = send_msg request codecs m s in
          (sent ≡ ok tt)
          × (db.get t m.envelope.id ≡ ok (CodecLaws.image formats.message m))
          × ((x : Message)
              → Queried db laws iterator codecs formats t gid x
                ↔ Queried db laws iterator codecs formats s gid x)
    send_msg-group_unread m s group_peer box to_gid is_group short apart small =
        rw (send_msg-group m s group_peer box to_gid is_group small) (
          refl,
          get-put_msg db laws codecs formats m s m.envelope.id
              ∙ rw (short_peerid m.envelope.to short, beq_refl m.envelope.id) refl,
          λ x.
              put_msg_outside db laws iterator codecs formats m s gid x
                (λ id. rw (short_peerid m.envelope.to short) (apart id)),
        )
