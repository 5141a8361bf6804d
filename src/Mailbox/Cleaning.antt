-- ===== src/Mailbox/Cleaning.antt =====
-- What a put and a clean change in the mailboxes.
use go_achat_node.Prelude.{
  ◌≡◌, ◌≢◌, ◌↔◌, refl, sym, ap, ◌∙◌, Bool, true, false, ◌||◌, none, List, [], ◌∷◌, ◌++◌, Memᴰ,
  Bytes, beq, beq_refl, beq_ne, length, take-append, drop-append, drop, if◌then◌else◌, take, ok,
  err, arith,
}
use go_achat_node.Ldb.{Database, new_table}
use go_achat_node.Ldb.Laws.{DatabaseLaws, IteratorLaws}
use go_achat_node.Ldb.Table.{new_table-DatabaseLaws}
use go_achat_node.Types.{Jid, Message, CleanMsg, peerid}
use go_achat_node.Types.Codecs.{CodecLaws, to_bytes_lem}
use go_achat_node.Mailbox.{MailCodecs, MailLaws, put_msg, delete_all, do_clean_msg, do_query_msg}
use go_achat_node.Mailbox.Contents.{do_query_msg_lem}

abbrev pub contains : List Bytes → Bytes → Bool
contains [] j = false
contains (mid ∷ mids) j = beq mid j || contains mids j

-- Keys of two prefixes of one length differ where the prefixes do.
pub prefixed_ne : (p q a b : Bytes) → length p ≡ length q → p ≢ q → p ++ a ≢ q ++ b
prefixed_ne p q a b same ne e =
    ne (sym (take-append p a) ∙ ap (λ (x : Bytes). take (length p) x) e ∙ rw same (take-append q b))

pub prefixed_eq : (p q a b : Bytes) → length p ≡ length q → p ++ a ≡ q ++ b → a ≡ b
prefixed_eq p q a b same e =
    sym (drop-append p a) ∙ ap (λ (x : Bytes). drop (length p) x) e ∙ rw same (drop-append q b)

module _ {S : Type 0} (db : Database S) (laws : DatabaseLaws db) (codecs : MailCodecs)
    (formats : MailLaws codecs) where
  pub get-put_msg :
      (m : Message) (s : S) (j : Bytes)
      → db.get (put_msg db codecs m s).1 j ≡ (
          if beq (peerid m.envelope.to ++ m.envelope.id) j
          then ok (CodecLaws.image formats.message m)
          else db.get s j)
  unfolding put_msg new_table
  get-put_msg m s j =
      simp (to_bytes_lem formats.message m, DatabaseLaws.put_eq laws, DatabaseLaws.get-stored laws)

  pub put_msg_ok : (m : Message) (s : S) → (put_msg db codecs m s).0 ≡ ok tt
  unfolding put_msg new_table
  put_msg_ok m s = rw (DatabaseLaws.put_eq laws)

module _ {S : Type 0} (db : Database S) (laws : DatabaseLaws db) (codecs : MailCodecs) where
  -- After the loop of a clean, the named keys of the table are gone and the others are as before.
  delete_all-eq :
      (tab : Database S) (tab_laws : DatabaseLaws tab) (ids : List Bytes) (s : S)
      → ((delete_all db codecs tab ids s).0 ≡ ok tt)
        × ((j : Bytes)
            → tab.get (delete_all db codecs tab ids s).1 j
              ≡ (if contains ids j then err tab_laws.not_found else tab.get s j))
  unfolding delete_all
  delete_all-eq tab tab_laws [] s = (refl, λ j. refl)
  delete_all-eq tab tab_laws (mid ∷ mids) s =
      let (done, rest) = delete_all-eq tab tab_laws mids (tab_laws.removed s mid) in
      rw (tab_laws.delete_eq mid s) (
        done,
        λ j. rest j ∙ rw (tab_laws.get-removed s mid j) (either _ _ (contains mids j) (beq mid j)),
      )
    where
      either :
          {A : Type 0} (x y : A) (b c : Bool)
          → (if b then x else if c then x else y) ≡ (if c || b then x else y)
      either x y true true = refl
      either x y true false = refl
      either x y false true = refl
      either x y false false = refl

  pub get-do_clean_msg :
      (c : CleanMsg) (s : S) (id : Bytes)
      → db.get (do_clean_msg db codecs c s).1 (peerid c.jid ++ id)
        ≡ (if contains c.ids id then err laws.not_found else db.get s (peerid c.jid ++ id))
  unfolding do_clean_msg new_table new_table-DatabaseLaws
  get-do_clean_msg c s =
      (delete_all-eq (new_table db (peerid c.jid)) (new_table-DatabaseLaws db laws (peerid c.jid))
        c.ids s).1

  pub do_clean_msg_ok : (c : CleanMsg) (s : S) → (do_clean_msg db codecs c s).0 ≡ ok tt
  unfolding do_clean_msg
  do_clean_msg_ok c s =
      (delete_all-eq (new_table db (peerid c.jid)) (new_table-DatabaseLaws db laws (peerid c.jid))
        c.ids s).0

module _ {S : Type 0} (db : Database S) (laws : DatabaseLaws db) (iterator : IteratorLaws db)
    (codecs : MailCodecs) (formats : MailLaws codecs) where
  abbrev pub Queried : S → Jid → Message → Type 0
  Queried s jid m = Memᴰ m (do_query_msg db codecs s jid).messages

  -- A stored message with a non-empty id is in the answer to a query for its receiver.
  pub put_msg_kept :
      (m : Message) (s : S) (jid : Jid)
      → peerid jid ≡ peerid m.envelope.to
      → m.envelope.id ≢ []
      → Queried (put_msg db codecs m s).1 jid m
  put_msg_kept m s jid same some_id =
      ((do_query_msg_lem db iterator codecs (put_msg db codecs m s).1 jid).0 m).1 (
        m.envelope.id,
        CodecLaws.image formats.message m,
        some_id,
        rw same (
            get-put_msg db laws codecs formats m s (peerid m.envelope.to ++ m.envelope.id)
            ∙ rw beq_refl),
        CodecLaws.unmarshal-image formats.message m,
      )

  -- A message that is stored under a key outside a peer's table leaves the peer's messages as they are.
  pub put_msg_outside :
      (m : Message) (s : S) (jid : Jid) (x : Message)
      → ((id : Bytes) → peerid m.envelope.to ++ m.envelope.id ≢ peerid jid ++ id)
      → Queried (put_msg db codecs m s).1 jid x ↔ Queried s jid x
  put_msg_outside m s jid x outside =
      let after = (do_query_msg_lem db iterator codecs (put_msg db codecs m s).1 jid).0 x in
      let before = (do_query_msg_lem db iterator codecs s jid).0 x in
      (
        λ h.
            (let (id, buf, some_id, got, value) = after.0 h in
              before.1 (id, buf, some_id, sym (same_at id) ∙ got, value)),
        λ h.
            (let (id, buf, some_id, got, value) = before.0 h in
              after.1 (id, buf, some_id, same_at id ∙ got, value)),
      )
    where
      same_at :
          (id : Bytes)
          → db.get (put_msg db codecs m s).1 (peerid jid ++ id) ≡ db.get s (peerid jid ++ id)
      same_at id =
          get-put_msg db laws codecs formats m s (peerid jid ++ id)
          ∙ rw (beq_ne (peerid m.envelope.to ++ m.envelope.id) (peerid jid ++ id) (outside id))

  -- A query for a peer other than the receiver of a stored message, whose id has the same length, is
  -- answered with the same messages as before.
  pub put_msg_apart :
      (m : Message) (s : S) (jid : Jid) (x : Message)
      → length (peerid jid) ≡ length (peerid m.envelope.to)
      → peerid jid ≢ peerid m.envelope.to
      → Queried (put_msg db codecs m s).1 jid x ↔ Queried s jid x
  put_msg_apart m s jid x len ne = put_msg_outside m s jid x (λ id.
      prefixed_ne (peerid m.envelope.to) (peerid jid) m.envelope.id id (sym len) (λ e. ne (sym e)))

  -- A clean takes out of the receiver's mailbox the messages under the named ids, and no others.
  pub do_clean_msg_lem :
      (c : CleanMsg) (s : S) (m : Message)
      → Queried (do_clean_msg db codecs c s).1 c.jid m ↔ (
          (id : Bytes) × (buf : Bytes) × (id ≢ [])
          × (contains c.ids id ≡ false)
          × (db.get s (peerid c.jid ++ id) ≡ ok buf)
          × (codecs.message.unmarshal buf ≡ (m, none)))
  do_clean_msg_lem c s m =
      let after = (do_query_msg_lem db iterator codecs (do_clean_msg db codecs c s).1 c.jid).0 m in
      (
        λ h.
            (let (id, buf, some_id, got, value) = after.0 h in
              let (left, was) = left_of id (sym (get-do_clean_msg db laws codecs c s id) ∙ got) in
              (id, buf, some_id, left, was, value)),
        λ h.
            (let (id, buf, some_id, left, was, value) = h in
              after.1
                (id, buf, some_id, get-do_clean_msg db laws codecs c s id ∙ rw left was, value)),
      )
    where
      left_of :
          (id : Bytes) {buf : Bytes}
          → (if contains c.ids id then err laws.not_found else db.get s (peerid c.jid ++ id))
            ≡ ok buf
          → (contains c.ids id ≡ false) × (db.get s (peerid c.jid ++ id) ≡ ok buf)
      left_of id h = ground arith
