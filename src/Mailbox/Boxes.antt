-- ===== src/Mailbox/Boxes.antt =====
-- What a mailbox promises: for each peer a map from ids to messages. `box_of` reads it off the store of
-- mailbox.go, which all peers share.
use go_achat_node.Prelude.{
  ◌*◌, ◌≤◌, ◌≡◌, inl, inr, refl, ap, ◌∙◌, Bool, true, false, Bool-cases, ◌&&◌, ◌||◌, Option, none,
  some, List, [], ◌∷◌, ◌++◌, Bytes, beq, beq→eq, beq_ne, ne_of_beq, beq-append_left, length,
  if◌then◌else◌, Outcome, ok, err, panic, Error, eqb_ℤ,
}
use go_achat_node.Ldb.{Database, new_table}
use go_achat_node.Ldb.Laws.{DatabaseLaws}
use go_achat_node.Types.{Message, CleanMsg, normal_msg, group_msg, max_pkg, peerid}
use go_achat_node.Types.Codecs.{CodecLaws}
use go_achat_node.Mailbox.{
  MailCodecs, MailLaws, message_from_bytes, put_msg, do_clean_msg, msg_handler, clean_handler,
  delete_all,
}
use go_achat_node.Mailbox.Cleaning.{contains, prefixed_ne, get-put_msg, get-do_clean_msg}

-- The messages of a peer under their ids.
abbrev pub Box : Type 0
Box = Bytes → Option Message

pub data Request : Type 0 where
  put : Message → Request
  clean : CleanMsg → Request

-- Only normal messages and group messages are kept.
abbrev pub is_kept : Message → Bool
is_kept m = eqb_ℤ m.envelope.type normal_msg || eqb_ℤ m.envelope.type group_msg

-- What a request does to the box of a peer.
abbrev pub apply : Bytes → Request → Box → Box
apply peer (put m) box id =
    if is_kept m && (beq (peerid m.envelope.to) peer && beq m.envelope.id id)
    then some m
    else box id
apply peer (clean c) box id = if beq (peerid c.jid) peer && contains c.ids id then none else box id

abbrev pub apply_all : Bytes → List Request → Box → Box
apply_all peer [] box = box
apply_all peer (r ∷ rs) box = apply_all peer rs (apply peer r box)

beq-append : (p q a b : Bytes) → length p ≡ length q → beq (p ++ a) (q ++ b) ≡ (beq p q && beq a b)
beq-append p q a b same = elim (Bool-cases (beq p q)) [
  | inl e ↦ rw e (rw (beq→eq p q e) (beq-append_left q a b))
  | inr e ↦ rw e (beq_ne (p ++ a) (q ++ b) (prefixed_ne p q a b same (ne_of_beq p q e)))
]

-- What a stored value decodes to.
unfoldable pub decoded : Message × Error → Option Message
decoded (m, none) = some m
decoded (m, some e) = none

unfoldable pub stored : MailCodecs → Outcome Bytes → Option Message
unfolding decoded
stored codecs (ok buf) = decoded (message_from_bytes codecs buf)
stored codecs (err e) = none
stored codecs panic = none

module _ {S : Type 0} (db : Database S) (codecs : MailCodecs) where
  -- The box that a store holds for a peer.
  unfoldable pub box_of : S → Bytes → Box
  unfolding stored
  box_of s peer id = stored codecs (db.get s (peer ++ id))

module _ {S : Type 0} (db : Database S) (codecs : MailCodecs) (formats : MailLaws codecs) where
  -- The handlers at work, on requests as they are sent.
  unfoldable pub serve : Request → S → S
  serve (put m) s = (msg_handler db codecs (CodecLaws.image formats.message m) s).1
  serve (clean c) s = (clean_handler db codecs (CodecLaws.image formats.clean c) s).1

  unfoldable pub serve_all : List Request → S → S
  unfolding serve
  serve_all [] s = s
  serve_all (r ∷ rs) s = serve_all rs (serve r s)

module _ (codecs : MailCodecs) (formats : MailLaws codecs) where
  -- A request for a peer with an id as long as `peer`, within the limits of size.
  abbrev pub IsOrderly : Bytes → Request → Type 0
  IsOrderly peer (put m) =
      (length (peerid m.envelope.to) ≡ length peer)
      × (length (CodecLaws.image formats.message m) ≤ max_pkg)
  IsOrderly peer (clean c) =
      (length (peerid c.jid) ≡ length peer)
      × (length (CodecLaws.image formats.clean c) ≤ 2 * 1024 * 1024)

module _ {S : Type 0} (db : Database S) (laws : DatabaseLaws db) (codecs : MailCodecs)
    (formats : MailLaws codecs) where
  stored-if :
      (b : Bool) (m : Message) (r : Outcome Bytes)
      → stored codecs (if b then ok (CodecLaws.image formats.message m) else r)
        ≡ (if b then some m else stored codecs r)
  unfolding stored decoded
  stored-if true m r = rw (CodecLaws.unmarshal-image formats.message m) refl
  stored-if false m r = refl

  pub box_of-put_msg :
      (m : Message) (s : S) (peer id : Bytes)
      → length (peerid m.envelope.to) ≡ length peer
      → box_of db codecs (put_msg db codecs m s).1 peer id ≡ (
          if beq (peerid m.envelope.to) peer && beq m.envelope.id id
          then some m
          else box_of db codecs s peer id)
  unfolding box_of
  box_of-put_msg m s peer id len = rw (get-put_msg db laws codecs formats m s (peer ++ id)) (
      rw (beq-append (peerid m.envelope.to) peer m.envelope.id id len) (
        stored-if (beq (peerid m.envelope.to) peer && beq m.envelope.id id) m
          (db.get s (peer ++ id))))

  -- A clean leaves the keys outside its table alone.
  delete_all-outside :
      (p : Bytes) (ids : List Bytes) (s : S) (j : Bytes)
      → ((id : Bytes) → beq (p ++ id) j ≡ false)
      → db.get (delete_all db codecs (new_table db p) ids s).1 j ≡ db.get s j
  unfolding delete_all new_table
  delete_all-outside p [] s j outside = refl
  delete_all-outside p (id ∷ ids) s j outside = rw (laws.delete_eq (p ++ id) s) (
      delete_all-outside p ids (laws.removed s (p ++ id)) j outside
      ∙ laws.get-removed s (p ++ id) j
      ∙ rw (outside id) refl)

  stored-none :
      (b : Bool) (r : Outcome Bytes)
      → stored codecs (if b then err laws.not_found else r) ≡ (if b then none else stored codecs r)
  unfolding stored
  stored-none true r = refl
  stored-none false r = refl

  pub box_of-do_clean_msg :
      (c : CleanMsg) (s : S) (peer id : Bytes)
      → length (peerid c.jid) ≡ length peer
      → box_of db codecs (do_clean_msg db codecs c s).1 peer id ≡ (
          if beq (peerid c.jid) peer && contains c.ids id then none else box_of db codecs s peer id)
  unfolding box_of do_clean_msg
  box_of-do_clean_msg c s peer id len = elim (Bool-cases (beq (peerid c.jid) peer)) [
    | inl e ↦ rw e (
        rw (← beq→eq (peerid c.jid) peer e) (
          ap (stored codecs) (get-do_clean_msg db laws codecs c s id)
          ∙ stored-none (contains c.ids id) (db.get s (peerid c.jid ++ id))))
    | inr e ↦ rw e (
        ap (stored codecs) (
          delete_all-outside (peerid c.jid) c.ids s (peer ++ id) (λ k.
            beq_ne (peerid c.jid ++ k) (peer ++ id)
              (prefixed_ne (peerid c.jid) peer k id len (ne_of_beq (peerid c.jid) peer e)))))
  ]
