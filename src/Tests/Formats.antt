-- ===== src/Tests/Formats.antt =====
-- Formats for the types of groups.
use mathlib.Core.Option
use go_achat_node.Prelude.{◌≡◌, refl, ap, Option, none, some, List, [], ◌∷◌, map, Bytes}
use go_achat_node.Group.{
  GroupMember, Group, GroupRsp, GroupMemberReq, GroupMemberRsp, MemberItem, MemberLog, GroupCodecs,
  StoredLaws, SentLaws, exported, exported_item, exported_group, exported_req, exported_rsp,
}
use go_achat_node.Tests.Coder.{Coder, bytes, pair, option, list, codec, codec-CodecLaws}

module _ {A B : Type 0} (f : A → B) (g : B → A) {h : A → A} (back : (a : A) → g (f a) ≡ h a) where
  pub option_back : (o : Option A) → Option.map g (Option.map f o) ≡ Option.map h o
  option_back none = refl
  option_back (some a) = ap some (back a)

  pub list_back : (l : List A) → map g (map f l) ≡ map h l
  list_back [] = refl
  list_back (a ∷ l) = rw (back a, list_back l) refl

pub map_same : {A : Type 0} (l : List A) → map (λ a. a) l ≡ l
map_same [] = refl
map_same (a ∷ l) = rw (map_same l) refl

abbrev pub Pair : Type 0
Pair = Bytes × Bytes

abbrev pub Member : Type 0
Member = Bytes × (Bytes × Bytes)

abbrev from_member : GroupMember → Member
from_member m = (m.id, (m.name, m.gid))

abbrev to_member : Member → GroupMember
to_member (id, (name, gid)) = record { id = id; name = name; gid = gid; action = [] }

unfoldable pub member : Coder Member
member = pair bytes (pair bytes bytes)

abbrev Item : Type 0
Item = Member × Option Member

abbrev from_item : MemberItem → Item
from_item i = ((i.id, (i.prve, i.next)), Option.map from_member i.member)

abbrev to_item : Item → MemberItem
to_item ((id, (prve, next)), m) = record {
  id = id;
  prve = prve;
  next = next;
  member = Option.map to_member m;
}

abbrev Log : Type 0
Log = Member × Member

abbrev from_log : MemberLog → Log
from_log l = ((l.id, (l.prve, l.next)), (l.action, (l.gid, l.member_id)))

abbrev to_log : Log → MemberLog
to_log ((id, (prve, next)), (action, (gid, member_id))) = record {
  id = id;
  prve = prve;
  next = next;
  action = action;
  gid = gid;
  member_id = member_id;
}

abbrev GroupData : Type 0
GroupData = Pair × (Pair × Option Member)

abbrev from_group : Group → GroupData
from_group g = ((g.id, g.name), ((g.comment, g.lastlog), Option.map from_member g.owner))

abbrev to_group : GroupData → Group
to_group ((id, name), ((comment, lastlog), owner)) = record {
  id = id;
  owner = Option.map to_member owner;
  name = name;
  comment = comment;
  lastlog = lastlog;
}

unfoldable pub group_data : Coder GroupData
unfolding member
group_data = pair (pair bytes bytes) (pair (pair bytes bytes) (option member))

abbrev from_rsp : GroupRsp → Option GroupData × Bytes
from_rsp r = (Option.map from_group r.group, r.error)

abbrev to_rsp : Option GroupData × Bytes → GroupRsp
to_rsp (g, e) = record { group = Option.map to_group g; error = e }

abbrev ReqData : Type 0
ReqData = Member × List (Option Member)

abbrev from_req : GroupMemberReq → ReqData
from_req r = ((r.gid, (r.id, r.action)), map (Option.map from_member) r.members)

abbrev to_req : ReqData → GroupMemberReq
to_req ((gid, (id, action)), members) = record {
  gid = gid;
  id = id;
  action = action;
  members = map (Option.map to_member) members;
}

abbrev from_member_rsp : GroupMemberRsp → Member
from_member_rsp r = (r.action, (r.result, r.error))

abbrev to_member_rsp : Member → GroupMemberRsp
to_member_rsp (action, (result, error)) = record { action = action; result = result; error = error }

pub member_back : (m : GroupMember) → to_member (from_member m) ≡ exported m
member_back m = refl

pub item_back : (i : MemberItem) → to_item (from_item i) ≡ exported_item i
item_back i = rw (option_back from_member to_member member_back i.member) refl

pub group_back : (g : Group) → to_group (from_group g) ≡ exported_group g
group_back g = rw (option_back from_member to_member member_back g.owner) refl

pub rsp_back : (r : GroupRsp) → to_rsp (from_rsp r) ≡ exported_rsp r
rsp_back r = rw (option_back from_group to_group group_back r.group) refl

pub req_back : (r : GroupMemberReq) → to_req (from_req r) ≡ exported_req r
req_back r =
    rw
      (list_back (Option.map from_member) (Option.map to_member)
        (option_back from_member to_member member_back) r.members)
      refl

unfoldable pub group_codecs : GroupCodecs
unfolding member group_data
group_codecs = record {
  item = codec (pair member (option member)) from_item to_item;
  log = codec (pair member member) from_log to_log;
  group = codec group_data from_group to_group;
  group_rsp = codec (pair (option group_data) bytes) from_rsp to_rsp;
  member_req = codec (pair member (list (option member))) from_req to_req;
  member_rsp = codec member from_member_rsp to_member_rsp;
}

unfoldable pub stored_formats : StoredLaws group_codecs
unfolding group_codecs
stored_formats = record {
  item = codec-CodecLaws (pair member (option member)) from_item to_item item_back;
  log = codec-CodecLaws (pair member member) from_log to_log (λ l. refl);
  group = codec-CodecLaws group_data from_group to_group group_back;
}

unfoldable pub sent_formats : SentLaws group_codecs
unfolding group_codecs
sent_formats = record {
  group_rsp = codec-CodecLaws (pair (option group_data) bytes) from_rsp to_rsp rsp_back;
  member_req = codec-CodecLaws (pair member (list (option member))) from_req to_req req_back;
  member_rsp = codec-CodecLaws member from_member_rsp to_member_rsp (λ r. refl);
}
