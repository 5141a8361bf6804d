-- ===== src/Group/Views.antt =====
-- What a working store shows of one group: its items, its last item, its log and the last entry
-- of it; and how the writes of `handleMember` change that.
use go_achat_node.Prelude.{◌≡◌, Bytes, if◌then◌else◌, Outcome, ok, err}
use go_achat_node.Ldb.{Database}
use go_achat_node.Ldb.Laws.{DatabaseLaws}
use go_achat_node.Types.{Jid, Gid}
use go_achat_node.Types.Codecs.{CodecLaws}
use go_achat_node.Group.{
  MemberItem, MemberLog, GroupCodecs, StoredLaws, member_key, member_last_key, member_log_key,
  member_last_log_key,
}
use go_achat_node.Group.Members.{decode, get_member, put_encoded}
use go_achat_node.Group.Keys.{Slot, item, last, log, last_log, key_of, slot_beq, key_beq}
use go_achat_node.Group.Decoding.{decode_if, decode-item, decode-log}

module _ {S : Type 0} (tab : Database S) (codecs : GroupCodecs) (gid : Gid) where
  abbrev pub item_at : S → Jid → Outcome MemberItem
  item_at s id = get_member tab codecs s gid id

  unfoldable pub last_at : S → Outcome MemberItem
  last_at s = decode codecs.item (tab.get s (member_last_key gid))

  unfoldable pub log_at : S → Bytes → Outcome MemberLog
  log_at s id = decode codecs.log (tab.get s (member_log_key gid id))

  unfoldable pub last_log_at : S → Outcome MemberLog
  last_log_at s = decode codecs.log (tab.get s (member_last_log_key gid))

module _ {S : Type 0} (tab : Database S) (laws : DatabaseLaws tab) (codecs : GroupCodecs)
    (formats : StoredLaws codecs) (gid : Gid) where
  open laws use {not_found, stored, removed, put_eq, get-stored, get-removed}

  -- A value of a slot written in the format of an item, of a log entry, and a slot removed.
  unfoldable pub put_item : S → Slot → MemberItem → S
  put_item s a i = stored s (key_of gid a) (CodecLaws.image formats.item i)

  unfoldable pub put_log : S → Slot → MemberLog → S
  put_log s a l = stored s (key_of gid a) (CodecLaws.image formats.log l)

  unfoldable pub drop_item : S → Jid → S
  drop_item s id = removed s (member_key gid id)

  pub put_encoded-item :
      (a : Slot) (i : MemberItem) (s : S)
      → put_encoded tab codecs codecs.item (key_of gid a) i s ≡ (ok tt, put_item s a i)
  unfolding put_encoded put_item
  put_encoded-item a i s = simp (CodecLaws.marshal_eq formats.item, put_eq)

  pub put_encoded-log :
      (a : Slot) (l : MemberLog) (s : S)
      → put_encoded tab codecs codecs.log (key_of gid a) l s ≡ (ok tt, put_log s a l)
  unfolding put_encoded put_log
  put_encoded-log a l s = simp (CodecLaws.marshal_eq formats.log, put_eq)

  pub get-put_item :
      (s : S) (a b : Slot) (i : MemberItem)
      → tab.get (put_item s a i) (key_of gid b)
        ≡ (if slot_beq a b then ok (CodecLaws.image formats.item i) else tab.get s (key_of gid b))
  unfolding put_item
  get-put_item s a b i = simp (get-stored, key_beq)

  pub get-put_log :
      (s : S) (a b : Slot) (l : MemberLog)
      → tab.get (put_log s a l) (key_of gid b)
        ≡ (if slot_beq a b then ok (CodecLaws.image formats.log l) else tab.get s (key_of gid b))
  unfolding put_log
  get-put_log s a b l = simp (get-stored, key_beq)

  pub get-drop_item :
      (s : S) (a : Jid) (b : Slot)
      → tab.get (drop_item s a) (key_of gid b)
        ≡ (if slot_beq (item a) b then err not_found else tab.get s (key_of gid b))
  unfolding drop_item
  get-drop_item s a b = simp (get-removed, key_beq gid (item a))

  -- Each view after each kind of write.
  pub item_at-put_item :
      (s : S) (a : Slot) (b : Jid) (i : MemberItem)
      → item_at tab codecs gid (put_item s a i) b ≡ (
          if slot_beq a (item b)
          then decode codecs.item (ok (CodecLaws.image formats.item i))
          else item_at tab codecs gid s b)
  unfolding get_member
  item_at-put_item s a b i = simp (get-put_item s a (item b), decode_if)

  pub item_at-put_log :
      (s : S) (a : Slot) (b : Jid) (l : MemberLog)
      → item_at tab codecs gid (put_log s a l) b ≡ (
          if slot_beq a (item b)
          then decode codecs.item (ok (CodecLaws.image formats.log l))
          else item_at tab codecs gid s b)
  unfolding get_member
  item_at-put_log s a b l = simp (get-put_log s a (item b), decode_if)

  pub item_at-drop_item :
      (s : S) (a : Jid) (b : Jid)
      → item_at tab codecs gid (drop_item s a) b
        ≡ (if slot_beq (item a) (item b) then err not_found else item_at tab codecs gid s b)
  unfolding get_member
  item_at-drop_item s a b = simp (get-drop_item s a (item b), decode_if)

  pub last_at-put_item :
      (s : S) (a : Slot) (i : MemberItem)
      → last_at tab codecs gid (put_item s a i) ≡ (
          if slot_beq a last
          then decode codecs.item (ok (CodecLaws.image formats.item i))
          else last_at tab codecs gid s)
  unfolding last_at
  last_at-put_item s a i = simp (get-put_item s a last, decode_if)

  pub last_at-put_log :
      (s : S) (a : Slot) (l : MemberLog)
      → last_at tab codecs gid (put_log s a l) ≡ (
          if slot_beq a last
          then decode codecs.item (ok (CodecLaws.image formats.log l))
          else last_at tab codecs gid s)
  unfolding last_at
  last_at-put_log s a l = simp (get-put_log s a last, decode_if)

  pub last_at-drop_item :
      (s : S) (a : Jid)
      → last_at tab codecs gid (drop_item s a)
        ≡ (if slot_beq (item a) last then err not_found else last_at tab codecs gid s)
  unfolding last_at
  last_at-drop_item s a = simp (get-drop_item s a last, decode_if)

  pub log_at-put_item :
      (s : S) (a : Slot) (b : Bytes) (i : MemberItem)
      → log_at tab codecs gid (put_item s a i) b ≡ (
          if slot_beq a (log b)
          then decode codecs.log (ok (CodecLaws.image formats.item i))
          else log_at tab codecs gid s b)
  unfolding log_at
  log_at-put_item s a b i = simp (get-put_item s a (log b), decode_if)

  pub log_at-put_log :
      (s : S) (a : Slot) (b : Bytes) (l : MemberLog)
      → log_at tab codecs gid (put_log s a l) b ≡ (
          if slot_beq a (log b)
          then decode codecs.log (ok (CodecLaws.image formats.log l))
          else log_at tab codecs gid s b)
  unfolding log_at
  log_at-put_log s a b l = simp (get-put_log s a (log b), decode_if)

  pub log_at-drop_item :
      (s : S) (a : Jid) (b : Bytes)
      → log_at tab codecs gid (drop_item s a) b
        ≡ (if slot_beq (item a) (log b) then err not_found else log_at tab codecs gid s b)
  unfolding log_at
  log_at-drop_item s a b = simp (get-drop_item s a (log b), decode_if)

  pub last_log_at-put_item :
      (s : S) (a : Slot) (i : MemberItem)
      → last_log_at tab codecs gid (put_item s a i) ≡ (
          if slot_beq a last_log
          then decode codecs.log (ok (CodecLaws.image formats.item i))
          else last_log_at tab codecs gid s)
  unfolding last_log_at
  last_log_at-put_item s a i = simp (get-put_item s a last_log, decode_if)

  pub last_log_at-put_log :
      (s : S) (a : Slot) (l : MemberLog)
      → last_log_at tab codecs gid (put_log s a l) ≡ (
          if slot_beq a last_log
          then decode codecs.log (ok (CodecLaws.image formats.log l))
          else last_log_at tab codecs gid s)
  unfolding last_log_at
  last_log_at-put_log s a l = simp (get-put_log s a last_log, decode_if)

  pub last_log_at-drop_item :
      (s : S) (a : Jid)
      → last_log_at tab codecs gid (drop_item s a)
        ≡ (if slot_beq (item a) last_log then err not_found else last_log_at tab codecs gid s)
  unfolding last_log_at
  last_log_at-drop_item s a = simp (get-drop_item s a last_log, decode_if)

pub ruleset view_laws = (
  item_at-put_item, item_at-put_log, item_at-drop_item, last_at-put_item, last_at-put_log,
  last_at-drop_item, log_at-put_item, log_at-put_log, log_at-drop_item, last_log_at-put_item,
  last_log_at-put_log, last_log_at-drop_item, decode-item, decode-log,
)
