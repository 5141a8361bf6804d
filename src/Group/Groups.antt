-- ===== src/Group/Groups.antt =====
-- `groupdb` on its group table: `saveGroup`, `getGroup` and `_setLastlog`.
use go_achat_node.Prelude.{
  none, some, Bytes, Outcome, ok, err, panic, Error, Exec, pure, attempt, ◌>>◌,
}
use go_achat_node.Ldb.{Database, new_table}
use go_achat_node.Types.{Gid}
use go_achat_node.Types.Codecs.{to_bytes}
use go_achat_node.Group.{
  add, GroupMember, Group, MemberLog, GroupCodecs, group_prefix, member_prefix, member_last_key,
  member_last_log_key,
}
use go_achat_node.Group.Members.{decode, handle_member}

-- `newGroupDB`: two tables of one database.
unfoldable pub group_tab : {S : Type 0} → Database S → Database S
group_tab db = new_table db group_prefix

unfoldable pub member_tab : {S : Type 0} → Database S → Database S
member_tab db = new_table db member_prefix

module _ {S : Type 0} (db : Database S) (codecs : GroupCodecs) where
  unfoldable pub with_lastlog : Group → MemberLog × Error → Group
  with_lastlog group (last_log, none) = record group { lastlog = last_log.id }
  with_lastlog group (last_log, some e) = group

  -- `_setLastlog`
  unfoldable pub set_lastlog : S → Group → Outcome Group
  unfolding with_lastlog
  set_lastlog s group = elim ((member_tab db).get s (member_last_log_key group.id)) [
    | ok last ↦ ok (with_lastlog group (codecs.log.unmarshal last))
    | err e ↦ ok group
    | panic ↦ panic
  ]

  -- `getGroup`
  unfoldable pub get_group : S → Gid → Outcome Group
  unfolding set_lastlog
  get_group s id = elim (decode codecs.group ((group_tab db).get s id)) [
    | ok group ↦ set_lastlog s group
    | err e ↦ err e
    | panic ↦ panic
  ]

  -- The owner becomes the first member, if the group has no last one; what `handleMember` returns
  -- is not looked at.
  unfoldable pub init_member : Bytes → Gid → GroupMember → Outcome Bytes → Exec S (Unit {0})
  init_member uuid gid owner (ok buf) = pure tt
  init_member uuid gid owner (err e) = do
    attempt (
        handle_member (member_tab db) codecs uuid
          (record { id = owner.id; name = owner.name; gid = gid; action = add }))
    pure tt
  init_member uuid gid owner panic = λ s. (panic, s)

  save_owned : Bytes → Group → GroupMember → Exec S (Unit {0})
  unfolding init_member
  save_owned uuid group owner = do
    (group_tab db).put group.id (to_bytes codecs.group group)
    λ s. init_member uuid group.id owner ((member_tab db).get s (member_last_key group.id)) s

  -- `saveGroup`: its first log line reads the id of the owner, which panics if there is none.
  unfoldable pub save_group : Bytes → Group → Exec S (Unit {0})
  unfolding save_owned
  save_group uuid group = elim group.owner [
    | none ↦ (λ s. (panic, s))
    | some owner ↦ save_owned uuid group owner
  ]
