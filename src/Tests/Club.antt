-- ===== src/Tests/Club.antt =====
-- A group of three members that is built change by change, and the theorems on it.
use go_achat_node.Prelude.{
  ◌≡◌, refl, none, some, List, [], ◌∷◌, ◌++◌, Bytes, codes, beq, ok, err, arith,
}
use go_achat_node.Ldb.{Database, new_table, ldb_database}
use go_achat_node.Ldb.Laws.{DatabaseLaws}
use go_achat_node.Types.{Gid}
use go_achat_node.Types.Codecs.{to_bytes}
use go_achat_node.Group.{
  GroupMember, Group, add, sub, to, member_prefix, member_last_key, member_last_log_key,
  group_prefix, member_key,
}
use go_achat_node.Group.Members.{handle_member, query_member, get_member}
use go_achat_node.Group.Groups.{member_tab}
use go_achat_node.Group.Chain.{IsChain}
use go_achat_node.Group.Roster.{IsRoster}
use go_achat_node.Group.Views.{item_at}
use go_achat_node.Group.Adding.{handle_member-add}
use go_achat_node.Group.Removing.{handle_member-sub, handle_member-sub-IsChain}
use go_achat_node.Group.Stale.{sub_then_add_loses}
use go_achat_node.Group.Faults.{first, handle_member-refused, handle_member-add_last_again}
use go_achat_node.Group.Walking.{shown}
use go_achat_node.Group.Requests.{member_tab-DatabaseLaws}
use go_achat_node.Tests.Disk.{Disk, disk, disk-DatabaseLaws, lookup}
use go_achat_node.Tests.Formats.{group_codecs, stored_formats, sent_formats}

abbrev pub club : Gid
club = codes "club"

abbrev pub person : Bytes → Bytes → GroupMember
person id action = record { id = id; name = []; gid = club; action = action }

abbrev pub ann : GroupMember
ann = person (codes "ann") add

abbrev pub bob : GroupMember
bob = person (codes "bob") add

abbrev pub cid : GroupMember
cid = person (codes "cid") add

abbrev pub dan : GroupMember
dan = person (codes "dan") add

abbrev pub club_group : Group
club_group = record {
  id = club;
  owner = shown ann;
  name = codes "Club";
  comment = [];
  lastlog = [];
}

abbrev pub tab : Database Disk
tab = member_tab disk

abbrev pub tab_laws : DatabaseLaws tab
tab_laws = member_tab-DatabaseLaws disk disk-DatabaseLaws group_codecs stored_formats sent_formats

-- The group's record alone.
abbrev pub founded : Disk
founded = (group_prefix ++ club, to_bytes group_codecs.group club_group) ∷ []

abbrev pub after : GroupMember → Disk → Disk
after gm s = (handle_member tab group_codecs (codes "u") gm s).1

abbrev pub with_ann : Disk
with_ann = after ann founded

abbrev pub with_bob : Disk
with_bob = after bob with_ann

abbrev pub with_cid : Disk
with_cid = after cid with_bob

abbrev pub Holds : Disk → List GroupMember → Type 0
Holds = IsRoster tab group_codecs club

pub founded-IsRoster : Holds founded []
unfolding member_tab new_table ldb_database lookup member_prefix group_prefix member_last_key
    member_key get_member beq
founded-IsRoster = record {
  chain = record { links = tt; distinct = tt; named = refl; absent = λ id h. (_, refl) };
  tail = (_, refl);
}

pub with_ann-IsRoster : Holds with_ann (ann ∷ [])
with_ann-IsRoster =
    (handle_member-add tab tab_laws group_codecs stored_formats ann (codes "u") founded [] refl
      (λ e. cc) refl founded-IsRoster).1

handle_member-add_example :
    ((handle_member tab group_codecs (codes "u") ann founded).0 ≡ ok tt) × Holds with_ann (ann ∷ [])
handle_member-add_example =
    handle_member-add tab tab_laws group_codecs stored_formats ann (codes "u") founded [] refl
      (λ e. cc) refl founded-IsRoster

with_bob-IsRoster : Holds with_bob (ann ∷ bob ∷ [])
unfolding beq
with_bob-IsRoster =
    (handle_member-add tab tab_laws group_codecs stored_formats bob (codes "u") with_ann (ann ∷ [])
      refl (λ e. cc) refl with_ann-IsRoster).1

with_cid-IsRoster : Holds with_cid (ann ∷ bob ∷ cid ∷ [])
unfolding beq
with_cid-IsRoster =
    (handle_member-add tab tab_laws group_codecs stored_formats cid (codes "u") with_bob
      (ann ∷ bob ∷ []) refl (λ e. cc) refl with_bob-IsRoster).1

-- The last of three leaves.
abbrev pub cid_leaves : GroupMember
cid_leaves = person (codes "cid") sub

handle_member-sub_example :
    ((handle_member tab group_codecs (codes "v") cid_leaves with_cid).0 ≡ ok tt)
    × Holds (handle_member tab group_codecs (codes "v") cid_leaves with_cid).1 (ann ∷ bob ∷ [])
handle_member-sub_example =
    handle_member-sub tab tab_laws group_codecs stored_formats cid_leaves (codes "v") with_cid
      (ann ∷ []) bob cid [] refl refl (λ e. omega arith) with_cid-IsRoster

-- The middle one of three leaves.
abbrev pub bob_leaves : GroupMember
bob_leaves = person (codes "bob") sub

handle_member-sub-IsChain_example :
    ((handle_member tab group_codecs (codes "v") bob_leaves with_cid).0 ≡ ok tt)
    × IsChain
        (item_at tab group_codecs club
          (handle_member tab group_codecs (codes "v") bob_leaves with_cid).1)
        (ann ∷ cid ∷ [])
handle_member-sub-IsChain_example =
    handle_member-sub-IsChain tab tab_laws group_codecs stored_formats bob_leaves (codes "v")
      with_cid [] ann bob (cid ∷ []) refl refl with_cid-IsRoster

-- dan comes after that.
sub_then_add_loses_example :
    query_member tab group_codecs 9
      (handle_member tab group_codecs
        (codes "w")
        dan
        (handle_member tab group_codecs (codes "v") bob_leaves with_cid).1).1
      club
      to
      (codes "dan")
    ≡ some (shown dan ∷ shown cid ∷ [])
unfolding beq
sub_then_add_loses_example =
    sub_then_add_loses tab tab_laws group_codecs stored_formats (codes "v") (codes "w") bob_leaves
      (codes "dan") [] with_cid [] ann bob cid 6 refl refl refl with_cid-IsRoster

-- cid is added again.
handle_member-add_last_again_example :
    query_member tab group_codecs 100
      (handle_member tab group_codecs (codes "v") cid with_cid).1
      club
      to
      (codes "cid")
    ≡ none
handle_member-add_last_again_example =
    handle_member-add_last_again tab tab_laws group_codecs stored_formats (codes "v") cid with_cid
      (ann ∷ bob ∷ []) cid 100 refl refl with_cid-IsRoster

-- ann, the owner, is to leave.
abbrev pub ann_leaves : GroupMember
ann_leaves = person (codes "ann") sub

handle_member-refused_example :
    let t = (handle_member tab group_codecs (codes "v") ann_leaves with_cid).1 in
    ((e : Bytes) × ((handle_member tab group_codecs (codes "v") ann_leaves with_cid).0 ≡ err e))
    × Holds t (ann ∷ bob ∷ cid ∷ [])
    × (tab.get t (member_last_log_key club) ≡ tab.get with_cid (member_last_log_key club))
handle_member-refused_example =
    handle_member-refused tab tab_laws group_codecs stored_formats (codes "v") ann_leaves with_cid
      (ann ∷ bob ∷ cid ∷ []) (first refl refl) with_cid-IsRoster
