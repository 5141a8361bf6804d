-- ===== src/Tests/Founding.antt =====
-- eve creates a group at her mailbox, and the theorem on that.
use go_achat_node.Prelude.{
  ◌≤◌, ◌*◌, ◌≡◌, refl, none, some, [], ◌∷◌, ◌++◌, Bytes, codes, beq, ne_of_beq, length,
  if◌then◌else◌, Outcome, ok, err, panic, Error, Exec, arith,
}
use go_achat_node.Ldb.{new_table, ldb_database}
use go_achat_node.Types.{mailid, max_pkg}
use go_achat_node.Types.Codecs.{CodecLaws}
use go_achat_node.Group.{Group, GroupRsp, member_prefix, member_last_key, member_key}
use go_achat_node.Group.Members.{get_member}
use go_achat_node.Group.Groups.{member_tab, get_group}
use go_achat_node.Group.Service.{update_handler}
use go_achat_node.Group.Founding.{founder}
use go_achat_node.Rpc.Groups.{create_group}
use go_achat_node.Rpc.Creating.{IsGroupMailbox, create_group_founds}
use go_achat_node.Tests.Coder.{pair, bytes, option, put_option, codec-CodecLaws}
use go_achat_node.Tests.Disk.{Disk, disk, disk-DatabaseLaws, lookup}
use go_achat_node.Tests.Formats.{group_codecs, stored_formats, sent_formats, group_data}
use go_achat_node.Tests.Peers.{eve, box_id}
use go_achat_node.Tests.Club.{club, club_group, Holds}

abbrev reply : Outcome (GroupRsp × Error) × Disk → Outcome Bytes × Disk
reply (ok (r, none), t) = (ok (CodecLaws.image sent_formats.group_rsp r), t)
reply (ok (r, some e), t) = (err e, t)
reply (err e, t) = (err e, t)
reply (panic, t) = (panic, t)

-- The mailbox knows eve as "eve".
unfoldable request : Bytes → Bytes → Bytes → Exec Disk Bytes
request peer pid input s =
    if beq peer box_id
    then reply (update_handler disk group_codecs (codes "u") (codes "eve") input s)
    else (err (codes "unreachable"), s)

request-IsGroupMailbox :
    IsGroupMailbox disk disk-DatabaseLaws group_codecs stored_formats sent_formats
      (codes "u")
      (codes "eve")
      request
      (mailid eve)
unfolding request mailid beq
request-IsGroupMailbox = record { updates = λ buf r s t h. rw h refl }

nobody-IsRoster : Holds [] []
unfolding member_tab new_table ldb_database lookup member_prefix member_last_key member_key
    get_member beq
nobody-IsRoster = record {
  chain = record { links = tt; distinct = tt; named = refl; absent = λ id h. (_, refl) };
  tail = (_, refl);
}

club_small : length (CodecLaws.image stored_formats.group club_group) ≤ 10 * max_pkg
unfolding stored_formats codec-CodecLaws pair bytes option put_option group_data
club_small = omega arith

create_group_founds_example :
    let (answer, t) = create_group request group_codecs [] eve (some club_group) [] in
    ((g : Group) × (answer ≡ ok (record { group = some g; error = [] }))
      × (get_group disk group_codecs t club ≡ ok g)
      × (g.owner ≡ some (record { id = codes "eve"; name = []; gid = []; action = [] })))
    × Holds t (founder (codes "eve") club ∷ [])
unfolding beq mailid
create_group_founds_example =
    create_group_founds disk disk-DatabaseLaws group_codecs stored_formats sent_formats (codes "u")
      (codes "eve") request [] eve club_group [] refl request-IsGroupMailbox refl
      (λ k. ne_of_beq club (codes "_MEMBER" ++ k) refl) (λ e. cc) club_small nobody-IsRoster
