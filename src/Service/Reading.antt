-- ===== src/Service/Reading.antt =====
-- The receiver reads its mailbox and cleans what it has read.
use mathlib.Core.List.Memᴰ
use mathlib.Core.Path.{subst}
use go_achat_node.Prelude.{
  ◌*◌, ◌≤◌, ◌≡◌, refl, sym, ap, ◌∙◌, true, Bool-cases, inl, inr, none, List, [], ◌∷◌, ◌++◌, map,
  Memᴰ, Bytes, beq, beq→eq, beq_refl, length, ok, Error, Exec, arith,
}
use go_achat_node.Ldb.{Database}
use go_achat_node.Ldb.Laws.{DatabaseLaws, IteratorLaws}
use go_achat_node.Types.{Jid, Message, MessageList, CleanMsg, peerid, mailid}
use go_achat_node.Types.Codecs.{CodecLaws}
use go_achat_node.Mailbox.{MailCodecs, MailLaws, put_msg, do_query_msg, do_clean_msg, clean_msg}
use go_achat_node.Mailbox.Contents.{do_query_msg_lem}
use go_achat_node.Mailbox.Cleaning.{contains, get-put_msg, prefixed_eq, do_clean_msg_lem}
use go_achat_node.Mailbox.Delivery.{clean_handler_lem}
use go_achat_node.Service.{clean_own}
use go_achat_node.Service.Forwarding.{IsMailbox}

abbrev pub ids_of : MessageList → List Bytes
ids_of ms = map (λ m. m.envelope.id) ms

contains-ids_of :
    (x : Message) (ms : MessageList) → Memᴰ x ms → contains (ids_of ms) x.envelope.id ≡ true
contains-ids_of x (m ∷ ms) (Memᴰ.head p) =
    let e : beq m.envelope.id x.envelope.id ≡ true = rw p (beq_refl m.envelope.id) in ground arith
contains-ids_of x (m ∷ ms) (Memᴰ.tail t) = ground (arith, contains-ids_of x ms t)
contains-ids_of x [] h = absurd (Memᴰ.not-nil h)

nil_of_no_mem : (ms : MessageList) → ((x : Message) → Memᴰ x ms → ⊥) → ms ≡ []
nil_of_no_mem [] h = refl
nil_of_no_mem (m ∷ ms) h = absurd (h m (Memᴰ.head refl))

module _ {S : Type 0} (db : Database S) (laws : DatabaseLaws db) (iterator : IteratorLaws db)
    (codecs : MailCodecs) (formats : MailLaws codecs) where
  -- What lies in the mailbox of `jid` is stored under its own id.
  pub record IsKeyed (s : S) (jid : Jid) : Type 0 where
    pub own_id :
        (id buf : Bytes) (m : Message)
        → db.get s (peerid jid ++ id) ≡ ok buf
        → codecs.message.unmarshal buf ≡ (m, none)
        → m.envelope.id ≡ id

  -- The message that was written is the one that is read.
  new_key :
      (m x : Message) (id : Bytes) {image buf : Bytes}
      → codecs.message.unmarshal image ≡ (m, none)
      → image ≡ buf
      → codecs.message.unmarshal buf ≡ (x, none)
      → m.envelope.id ≡ id
      → x.envelope.id ≡ id
  new_key m x id w e r h =
      ap (λ (p : Message × Error). p.0.envelope.id)
        (sym r ∙ ap codecs.message.unmarshal (sym e) ∙ w)
      ∙ h

  own_id-put_msg :
      (m : Message) (s : S) (jid : Jid)
      → length (peerid jid) ≡ length (peerid m.envelope.to)
      → IsKeyed s jid
      → (id buf : Bytes) (x : Message)
      → db.get (put_msg db codecs m s).1 (peerid jid ++ id) ≡ ok buf
      → codecs.message.unmarshal buf ≡ (x, none)
      → x.envelope.id ≡ id
  own_id-put_msg m s jid len keyed id buf x got value =
      elim (Bool-cases (beq (peerid m.envelope.to ++ m.envelope.id) (peerid jid ++ id))) [
        | inl e ↦
            let image = CodecLaws.image formats.message m in
            let put : db.get (put_msg db codecs m s).1 (peerid jid ++ id) ≡ ok image =
              get-put_msg db laws codecs formats m s (peerid jid ++ id) ∙ rw e in
            let same_buf : image ≡ buf = cc in
            new_key m x id (CodecLaws.unmarshal-image formats.message m) same_buf value (
              prefixed_eq (peerid m.envelope.to) (peerid jid) m.envelope.id id (sym len)
                (beq→eq (peerid m.envelope.to ++ m.envelope.id) (peerid jid ++ id) e))
        | inr e ↦
            keyed.own_id id buf x
              (sym (get-put_msg db laws codecs formats m s (peerid jid ++ id) ∙ rw e) ∙ got) value
      ]

  -- Where what lies in a mailbox is stored under its own id, it is so after a put for a receiver whose
  -- peer id has the same length.
  pub put_msg-IsKeyed :
      (m : Message) (s : S) (jid : Jid)
      → length (peerid jid) ≡ length (peerid m.envelope.to)
      → IsKeyed s jid
      → IsKeyed (put_msg db codecs m s).1 jid
  put_msg-IsKeyed m s jid len keyed = record { own_id = own_id-put_msg m s jid len keyed }

  cleaned_nil :
      (s : S) (jid : Jid)
      → IsKeyed s jid
      → let ids = ids_of (do_query_msg db codecs s jid).messages in
        (do_query_msg db codecs
          (do_clean_msg db codecs (record { jid = jid; ids = ids }) s).1
          jid).messages
        ≡ []
  cleaned_nil s jid keyed = nil_of_no_mem _ λ x h.
      let (id, buf, some_id, left, got, value) =
        (do_clean_msg_lem db laws iterator codecs formats
            (record { jid = jid; ids = ids_of (do_query_msg db codecs s jid).messages }) s x).0
          h in
      let there =
        ((do_query_msg_lem db iterator codecs s jid).0 x).1 (id, buf, some_id, got, value) in
      cc (contains-ids_of x _ there, keyed.own_id id buf x got value, left)

  -- A reachable mailbox whose messages lie under their own ids is empty for its owner after the owner
  -- has cleaned the ids of what a query gives, in a request within the limit of 2 MB; the clean
  -- returns no error.
  pub query_then_clean :
      (request : Bytes → Bytes → Bytes → Exec S Bytes) (s : S) (jid : Jid)
      → IsMailbox db laws iterator codecs formats request (mailid jid)
      → IsKeyed s jid
      → let ids = ids_of (do_query_msg db codecs s jid).messages in
        length (CodecLaws.image formats.clean (record { jid = jid; ids = ids })) ≤ 2 * 1024 * 1024
        → ((clean_own request codecs jid ids s).0 ≡ ok tt)
          × ((do_query_msg db codecs (clean_own request codecs jid ids s).1 jid).messages ≡ [])
  unfolding clean_own clean_msg
  query_then_clean request s jid node keyed small =
      cleaned (do_query_msg db codecs s jid).messages refl
    where
      Small : MessageList → Type 0
      Small l =
          length (CodecLaws.image formats.clean (record { jid = jid; ids = ids_of l }))
          ≤ 2 * 1024 * 1024

      Emptied : MessageList → Type 0
      Emptied l =
          (do_query_msg db codecs
            (do_clean_msg db codecs (record { jid = jid; ids = ids_of l }) s).1 jid).messages
          ≡ []

      cleaned :
          (ms : MessageList)
          → (do_query_msg db codecs s jid).messages ≡ ms
          → ((clean_own request codecs jid (ids_of ms) s).0 ≡ ok tt)
            × ((do_query_msg db codecs (clean_own request codecs jid (ids_of ms) s).1 jid).messages
                ≡ [])
      cleaned [] e = (refl, e)
      cleaned (m ∷ ms) e =
          let c : CleanMsg = record { jid = jid; ids = ids_of (m ∷ ms) } in
          let limit = subst (λ (l : MessageList). Small l) e small in
          let gone = subst (λ (l : MessageList). Emptied l) e (cleaned_nil s jid keyed) in
          let answer =
            node.cleans (CodecLaws.image formats.clean c) [] s (do_clean_msg db codecs c s).1
              (clean_handler_lem db laws codecs formats c s limit) in
          simp (CodecLaws.marshal_eq formats.clean, answer) (refl, gone)
