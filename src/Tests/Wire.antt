-- ===== src/Tests/Wire.antt =====
-- Requests for a group as they come over the wire, and the theorems on them.
use go_achat_node.Prelude.{
  ◌≤◌, ◌≡◌, inl, refl, none, some, [], ◌∷◌, ◌++◌, Bytes, codes, beq, ne_of_beq, ◌*◌, length, ok,
  arith,
}
use go_achat_node.Ldb.{new_table, ldb_database}
use go_achat_node.Types.{max_pkg}
use go_achat_node.Types.Codecs.{CodecLaws, to_bytes}
use go_achat_node.Group.{
  Group, GroupMemberReq, add, from, member_prefix, member_last_key, member_last_log_key,
  member_log_key, group_prefix, member_key,
}
use go_achat_node.Group.Members.{
  handle_member, apply_action, add_member, link_item, link_log, put_encoded,
}
use go_achat_node.Group.Groups.{member_tab, get_group, group_tab, set_lastlog}
use go_achat_node.Group.Service.{success, member_handler, update_handler}
use go_achat_node.Group.Walking.{shown}
use go_achat_node.Group.Requests.{member_handler-change, member_handler-query}
use go_achat_node.Tests.Disk.{disk, disk-DatabaseLaws, lookup}
use go_achat_node.Tests.Formats.{member, group_data, group_codecs, stored_formats, sent_formats}
use go_achat_node.Tests.Coder.{
  codec, pair, bytes, option, get_option, put_option, list, put_items, codec-CodecLaws,
}
use go_achat_node.Group.Ownership.{update_handler_takes_over}
use go_achat_node.Tests.Club.{
  club, ann, bob, cid, club_group, founded, with_ann, Holds, founded-IsRoster, with_ann-IsRoster,
}

-- Requests for the group that only has its record.
abbrev join : GroupMemberReq
join = record { gid = club; id = codes "ann"; action = add; members = some bob ∷ some cid ∷ [] }

abbrev join_sent : Bytes
join_sent = CodecLaws.image sent_formats.member_req join

found : get_group disk group_codecs founded club ≡ ok club_group
unfolding get_group group_tab set_lastlog member_tab new_table ldb_database lookup group_prefix
    member_prefix member_last_log_key group_codecs beq codec pair bytes option get_option put_option
found = refl

join_small : length join_sent ≤ 4096
unfolding sent_formats codec-CodecLaws pair bytes option put_option list put_items
join_small = omega arith

member_handler-change_example :
    let (answer, t) = member_handler disk group_codecs 5 (λ n. n ∷ []) join_sent founded in
    (answer ≡ ok (some (record { action = add; result = success; error = [] }, none))) × Holds t []
member_handler-change_example =
    member_handler-change disk disk-DatabaseLaws group_codecs stored_formats sent_formats 5
      (λ n. n ∷ []) founded club_group join (bob ∷ cid ∷ []) [] (inl refl) refl (refl, (refl, tt))
      join_small found founded-IsRoster

abbrev who : GroupMemberReq
who = record { gid = club; id = codes "ann"; action = from; members = [] }

who_small : length (CodecLaws.image sent_formats.member_req who) ≤ 4096
unfolding sent_formats codec-CodecLaws pair bytes option put_option list put_items
who_small = omega arith

found_with_ann :
    get_group disk group_codecs with_ann club ≡ ok (record club_group { lastlog = codes "u" })
unfolding get_group group_tab set_lastlog member_tab new_table ldb_database lookup group_prefix
    member_prefix member_last_log_key group_codecs beq codec pair bytes option get_option put_option
    handle_member apply_action add_member link_item link_log put_encoded member_key member_last_key
    member_log_key
found_with_ann = refl

member_handler-query_example :
    member_handler disk group_codecs 2
      (λ n. n ∷ [])
      (CodecLaws.image sent_formats.member_req who)
      with_ann
    ≡ (
      ok (
          some (
            record {
              action = from;
              result =
                  CodecLaws.image sent_formats.member_req (record who { members = shown ann ∷ [] });
              error = [];
            },
            none,
          )),
      with_ann,
    )
unfolding beq
member_handler-query_example =
    member_handler-query disk disk-DatabaseLaws group_codecs stored_formats sent_formats 2
      (λ n. n ∷ []) with_ann (record club_group { lastlog = codes "u" }) who (ann ∷ [])
      (inl (refl, refl)) (omega arith) who_small found_with_ann with_ann-IsRoster.chain

update_small : length (CodecLaws.image stored_formats.group club_group) ≤ 10 * max_pkg
unfolding stored_formats codec-CodecLaws pair bytes option put_option group_data member
update_small = omega arith

last_kept :
    (member_tab disk).get with_ann (member_last_key club)
    ≡ ok (
        to_bytes group_codecs.item
          (record { id = ann.id; prve = []; next = []; member = some ann }))
unfolding member_tab new_table ldb_database lookup group_prefix member_prefix member_last_log_key
    group_codecs beq codec pair bytes option get_option put_option handle_member apply_action
    add_member link_item link_log put_encoded member_key member_last_key member_log_key
last_kept = refl

-- bob takes the group of ann.
update_handler_takes_over_example :
    let (answer, t) =
      update_handler disk group_codecs
        (codes "v")
        (codes "bob")
        (CodecLaws.image stored_formats.group club_group)
        with_ann in
    ((g : Group) × (answer ≡ ok (record { group = some g; error = [] }, none))
      × (get_group disk group_codecs t club ≡ ok g)
      × (g.owner ≡ some (record { id = codes "bob"; name = []; gid = []; action = [] })))
    × Holds t (ann ∷ [])
unfolding beq
update_handler_takes_over_example =
    update_handler_takes_over disk disk-DatabaseLaws group_codecs stored_formats (codes "v")
      (codes "bob") club_group with_ann (ann ∷ []) refl
      (λ k. ne_of_beq club (codes "_MEMBER" ++ k) refl) update_small last_kept with_ann-IsRoster
