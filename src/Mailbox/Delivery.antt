-- ===== src/Mailbox/Delivery.antt =====
-- The handlers of the mailbox on input that decodes.
use go_achat_node.Prelude.{
  ◌*◌, ◌≤◌, ◌≡◌, ◌⊎◌, inl, inr, true, false, arith, eqb_ℤ, none, some, [], codes, length, ok,
}
use go_achat_node.Ldb.{Database}
use go_achat_node.Ldb.Laws.{DatabaseLaws}
use go_achat_node.Types.{Jid, Message, CleanMsg, normal_msg, group_msg, max_pkg}
use go_achat_node.Types.Codecs.{CodecLaws, to_bytes_lem}
use go_achat_node.Group.Service.{success}
use go_achat_node.Mailbox.{
  MailCodecs, MailLaws, put_msg, do_query_msg, do_clean_msg, msg_handler, query_handler,
  clean_handler,
}
use go_achat_node.Mailbox.Cleaning.{put_msg_ok, do_clean_msg_ok}

module _ {S : Type 0} (db : Database S) (laws : DatabaseLaws db) (codecs : MailCodecs)
    (formats : MailLaws codecs) where
  put_msg_pair : (m : Message) (s : S) → put_msg db codecs m s ≡ (ok tt, (put_msg db codecs m s).1)
  put_msg_pair m s = λ i. (put_msg_ok db laws codecs formats m s i, (put_msg db codecs m s).1)

  -- A normal or a group message of at most MAX_PKG bytes is stored by the handler, and the sender is
  -- answered with success.
  pub msg_handler-put_msg :
      (m : Message) (s : S)
      → length (CodecLaws.image formats.message m) ≤ max_pkg
      → (m.envelope.type ≡ normal_msg) ⊎ (m.envelope.type ≡ group_msg)
      → msg_handler db codecs (CodecLaws.image formats.message m) s
        ≡ (ok (success, none), (put_msg db codecs m s).1)
  unfolding msg_handler
  msg_handler-put_msg m s small (inl e) =
      let is_normal : eqb_ℤ m.envelope.type normal_msg ≡ true = ground arith in
      rw (CodecLaws.read-image formats.message max_pkg m small)
        (rw is_normal (rw (put_msg_pair m s)))
  msg_handler-put_msg m s small (inr e) =
      let other : eqb_ℤ m.envelope.type normal_msg ≡ false = ground arith in
      let is_group : eqb_ℤ m.envelope.type group_msg ≡ true = ground arith in
      rw (CodecLaws.read-image formats.message max_pkg m small)
        (rw (other, is_group) (rw (put_msg_pair m s)))

  -- A message of at most MAX_PKG bytes of any other type is refused with nothing written back, and
  -- the store stays as it was.
  pub msg_handler-refused :
      (m : Message) (s : S)
      → length (CodecLaws.image formats.message m) ≤ max_pkg
      → eqb_ℤ m.envelope.type normal_msg ≡ false
      → eqb_ℤ m.envelope.type group_msg ≡ false
      → msg_handler db codecs (CodecLaws.image formats.message m) s
        ≡ (ok ([], some (codes "not support yet")), s)
  unfolding msg_handler
  msg_handler-refused m s small n g =
      rw (CodecLaws.read-image formats.message max_pkg m small) (rw (n, g))

  pub query_handler_lem :
      (jid : Jid) (s : S)
      → length (CodecLaws.image formats.jid jid) ≤ 128
      → query_handler db codecs (CodecLaws.image formats.jid jid) s
        ≡ (ok (CodecLaws.image formats.bag (do_query_msg db codecs s jid), none), s)
  unfolding query_handler
  query_handler_lem jid s small =
      rw (CodecLaws.read-image formats.jid 128 jid small) (rw (to_bytes_lem formats.bag _))

  pub clean_handler_lem :
      (c : CleanMsg) (s : S)
      → length (CodecLaws.image formats.clean c) ≤ 2 * 1024 * 1024
      → clean_handler db codecs (CodecLaws.image formats.clean c) s
        ≡ (ok ([], none), (do_clean_msg db codecs c s).1)
  unfolding clean_handler
  clean_handler_lem c s small =
      let read = CodecLaws.read-image formats.clean (2 * 1024 * 1024) c small in
      let pair : do_clean_msg db codecs c s ≡ (ok tt, (do_clean_msg db codecs c s).1) =
        λ i. (do_clean_msg_ok db laws codecs c s i, (do_clean_msg db codecs c s).1) in
      rw read (rw pair)
