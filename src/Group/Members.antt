-- ===== src/Group/Members.antt =====
-- `groupdb` on its member table: `getMember`, `handleMember` and `queryMember`.
use go_achat_node.Prelude.{
  ℕ, zero, suc, Option, none, some, List, [], ◌∷◌, ◌++◌, Bytes, beq, codes, if◌then◌else◌, Outcome,
  ok, err, panic, Error, Exec, pure, fail, lift, attempt, ◌>>=◌, ◌>>◌,
}
use go_achat_node.Ldb.{Database}
use go_achat_node.Types.{Jid, Gid}
use go_achat_node.Types.Codecs.{Codec, must_to_byte}
use go_achat_node.Group.{
  MemberAction, add, sub, from, to, GroupMember, MemberItem, MemberLog, GroupCodecs, member_key,
  member_last_key, member_log_key, member_last_log_key,
}

abbrev pub or_error : {A : Type 0} → A × Error → Outcome A
or_error (a, none) = ok a
or_error (a, some e) = err e

-- A read and the decoding of what it found, with the error of either.
abbrev pub decode : {A : Type 0} → Codec A → Outcome Bytes → Outcome A
decode c (ok buf) = or_error (c.unmarshal buf)
decode c (err e) = err e
decode c panic = panic

module _ {S : Type 0} (tab : Database S) (codecs : GroupCodecs) where
  -- `getMember`
  unfoldable pub get_member : S → Gid → Jid → Outcome MemberItem
  get_member s gid id = decode codecs.item (tab.get s (member_key gid id))

  -- `tab.Put(key, mustToByte(o))`, its error not looked at
  unfoldable pub put_encoded : {A : Type 0} → Codec A → Bytes → A → Exec S (Unit {0})
  put_encoded c key o = do buf ← lift (must_to_byte c o); attempt (tab.put key buf); pure tt

  -- The link from the last log entry to the new one; gives the new entry with its link back.
  unfoldable pub link_log : Gid → Outcome Bytes → MemberLog → Exec S MemberLog
  link_log gid (ok buf) member_log = do
    let last = (codecs.log.unmarshal buf).0
    put_encoded codecs.log (member_log_key gid last.id) (record last { next = member_log.id })
    pure (record member_log { prve = last.id })
  link_log gid (err e) member_log = pure member_log
  link_log gid panic member_log = λ s. (panic, s)

  -- The link from the last member to the new one; gives the new item with its link back.
  unfoldable pub link_item : Gid → Outcome Bytes → MemberItem → Exec S MemberItem
  link_item gid (ok buf) itm = do
    let last = (codecs.item.unmarshal buf).0
    put_encoded codecs.item (member_key gid last.id) (record last { next = itm.id })
    pure (record itm { prve = last.id })
  link_item gid (err e) itm = pure itm
  link_item gid panic itm = λ s. (panic, s)

  -- The case ADD of `handleMember`.
  unfoldable pub add_member : GroupMember → Exec S (Unit {0})
  unfolding link_item put_encoded
  add_member gm s =
      (do
        itm ←
            link_item gm.gid (tab.get s (member_last_key gm.gid))
              (record { id = gm.id; prve = []; next = []; member = some gm })
        put_encoded codecs.item (member_key gm.gid gm.id) itm
        put_encoded codecs.item (member_last_key gm.gid) itm)
        s

  -- What SUB does to the neighbour behind the removed item, if it can be read, and else to the
  -- record of the last member; gives the neighbour before it with its new link.
  unfoldable pub unlink_next : Gid → Outcome MemberItem → MemberItem → Exec S MemberItem
  unlink_next gid (ok itm_next) itm_prve = do
    put_encoded codecs.item (member_key gid itm_next.id) (record itm_next { prve = itm_prve.id })
    pure (record itm_prve { next = itm_next.id })
  unlink_next gid (err e) itm_prve = do
    let itm_last = record itm_prve { next = [] }
    put_encoded codecs.item (member_last_key gid) itm_last
    pure itm_last
  unlink_next gid panic itm_prve = λ s. (panic, s)

  -- The case SUB of `handleMember`.
  unfoldable pub sub_member : GroupMember → Exec S (Unit {0})
  unfolding unlink_next put_encoded
  sub_member gm s =
      (do
        itm ← lift (get_member s gm.gid gm.id)
        before ← lift (get_member s gm.gid itm.prve)
        itm_prve ← unlink_next gm.gid (get_member s gm.gid itm.next) before
        put_encoded codecs.item (member_key gm.gid itm_prve.id) itm_prve
        attempt (tab.delete (member_key gm.gid itm.id))
        pure tt)
        s

  -- The `switch` of `handleMember`.
  unfoldable pub apply_action : GroupMember → Exec S (Unit {0})
  unfolding add_member sub_member
  apply_action gm =
      if beq gm.action add
      then add_member gm
      else if beq gm.action sub
      then sub_member gm
      else fail (codes "not support opt")

  -- `handleMember`, with the uuid of the new log entry
  unfoldable pub handle_member : Bytes → GroupMember → Exec S (Unit {0})
  unfolding apply_action link_log put_encoded
  handle_member uuid gm s =
      (do
        member_log ← link_log gm.gid (tab.get s (member_last_log_key gm.gid)) (record {
          id = uuid;
          prve = [];
          next = [];
          action = gm.action;
          gid = [];
          member_id = gm.id;
        })
        last_mlog ← lift (must_to_byte codecs.log member_log)
        attempt (tab.put (member_log_key gm.gid member_log.id) last_mlog)
        apply_action gm
        tab.put (member_last_log_key gm.gid) last_mlog)
        s

  -- `fn` of `queryMember`: the member at `id` and the id to go on with.
  unfoldable pub visit : S → Gid → MemberAction → Jid → Outcome (Option GroupMember × Jid)
  visit s gid action id = elim (get_member s gid id) [
    | ok m ↦
        if beq action from
        then ok (m.member, m.next)
        else if beq action to
        then ok (m.member, m.prve)
        else err (codes "error action")
    | err e ↦ err e
    | panic ↦ panic
  ]

  -- The loop of `queryMember` on fuel; `none` where it gives no list: the fuel has run out, or the
  -- store panics.
  unfoldable pub query_loop :
      ℕ
      → S
      → Gid
      → MemberAction
      → List (Option GroupMember)
      → Jid
      → Option (List (Option GroupMember))
  query_loop zero s gid action gml id = none
  query_loop (suc fuel) s gid action gml id = elim (visit s gid action id) [
    | ok (m, nid) ↦ query_loop fuel s gid action (gml ++ m ∷ []) nid
    | err e ↦ some gml
    | panic ↦ none
  ]

  -- `queryMember`
  unfoldable pub query_member :
      ℕ → S → Gid → MemberAction → Jid → Option (List (Option GroupMember))
  unfolding query_loop visit
  query_member fuel s gid action id = query_loop fuel s gid action [] id
