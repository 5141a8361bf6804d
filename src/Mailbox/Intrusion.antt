-- ===== src/Mailbox/Intrusion.antt =====
-- All tables of the store share one key space, and a receiver that is too short to hold a peer id
-- names the table without a prefix: `Peerid` of types.go in `putMsg` and `doCleanMsg` of mailbox.go.
use go_achat_node.Prelude.{
  ◌<◌, ◌≡◌, ◌≢◌, refl, sym, ap, ◌∙◌, [], ◌∷◌, ◌++◌, Bytes, beq_refl, length, ok, err, arith,
}
use go_achat_node.Ldb.{Database, new_table}
use go_achat_node.Ldb.Laws.{DatabaseLaws, IteratorLaws}
use go_achat_node.Types.{Jid, Gid, Message, CleanMsg, peerid}
use go_achat_node.Types.Codecs.{CodecLaws}
use go_achat_node.Group.{group_prefix}
use go_achat_node.Group.Groups.{group_tab}
use go_achat_node.Mailbox.{MailCodecs, MailLaws, put_msg, do_clean_msg}
use go_achat_node.Mailbox.Contents.{do_query_msg_lem}
use go_achat_node.Mailbox.Cleaning.{Queried, get-put_msg, get-do_clean_msg}

pub short_peerid : (i : Jid) → length i < 53 → peerid i ≡ []
unfolding peerid
short_peerid i h = ground arith

module _ {S : Type 0} (db : Database S) (laws : DatabaseLaws db) (iterator : IteratorLaws db)
    (codecs : MailCodecs) (formats : MailLaws codecs) where
  -- A message whose receiver is shorter than a peer id is stored under its own id alone.
  put_short :
      (m : Message) (s : S) (k : Bytes)
      → length m.envelope.to < 53
      → m.envelope.id ≡ k
      → db.get (put_msg db codecs m s).1 k ≡ ok (CodecLaws.image formats.message m)
  put_short m s k short same =
      get-put_msg db laws codecs formats m s k
      ∙ rw (short_peerid m.envelope.to short, same, beq_refl k) refl

  -- A message whose receiver is shorter than a peer id, and whose own id is a peer id with some more
  -- bytes, is in the answer to that peer's query, though it was not sent to it.
  pub put_msg_intrudes :
      (m : Message) (s : S) (jid : Jid) (rest : Bytes)
      → length m.envelope.to < 53
      → m.envelope.id ≡ peerid jid ++ rest
      → rest ≢ []
      → Queried db laws iterator codecs formats (put_msg db codecs m s).1 jid m
  put_msg_intrudes m s jid rest short same some_rest =
      ((do_query_msg_lem db iterator codecs (put_msg db codecs m s).1 jid).0 m).1 (
        rest,
        CodecLaws.image formats.message m,
        some_rest,
        put_short m s (peerid jid ++ rest) short same,
        CodecLaws.unmarshal-image formats.message m,
      )

  -- A message whose receiver is shorter than a peer id, and whose own id is the key of a group,
  -- takes the place of the group's record.
  pub put_msg_overwrites_group :
      (m : Message) (s : S) (gid : Gid)
      → length m.envelope.to < 53
      → m.envelope.id ≡ group_prefix ++ gid
      → (group_tab db).get (put_msg db codecs m s).1 gid ≡ ok (CodecLaws.image formats.message m)
  unfolding group_tab new_table
  put_msg_overwrites_group m s gid short same = put_short m s (group_prefix ++ gid) short same

  -- A clean for a JID shorter than a peer id that names the key of a group deletes the group's record.
  pub do_clean_msg_deletes_group :
      (c : CleanMsg) (s : S) (gid : Gid)
      → length c.jid < 53
      → c.ids ≡ (group_prefix ++ gid) ∷ []
      → (group_tab db).get (do_clean_msg db codecs c s).1 gid ≡ err laws.not_found
  unfolding group_tab new_table
  do_clean_msg_deletes_group c s gid short only =
      ap (λ (p : Bytes). db.get (do_clean_msg db codecs c s).1 (p ++ (group_prefix ++ gid)))
        (sym (short_peerid c.jid short))
      ∙ get-do_clean_msg db laws codecs c s (group_prefix ++ gid)
      ∙ rw only (rw (beq_refl (group_prefix ++ gid)) refl)
