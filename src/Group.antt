-- ===== src/Group.antt =====
-- mailbox_group.go: groups, their members as a doubly linked list in the store, and the log of
-- membership changes. A pointer field that may be nil is an `Option`; log lines are left out.
pub mod Members
pub mod Groups
pub mod Service
pub mod Keys
pub mod Decoding
pub mod Views
pub mod Chain
pub mod Edits
pub mod Cuts
pub mod Roster
pub mod Handling
pub mod Adding
pub mod Walking
pub mod Faults
pub mod Stale
pub mod Requests
pub mod Ownership
pub mod Framing
pub mod Founding
pub mod History
pub mod Recording
pub mod Leaving
pub mod Removing
use mathlib.Core.Option
use go_achat_node.Prelude.{Option, List, [], ◌++◌, map, Bytes, codes}
use go_achat_node.Types.{Jid, Gid}
use go_achat_node.Types.Codecs.{Codec, CodecLaws}

-- `MemberAction`
abbrev pub MemberAction : Type 0
MemberAction = Bytes

abbrev pub add : MemberAction
add = codes "+"

abbrev pub sub : MemberAction
sub = codes "-"

abbrev pub from : MemberAction
from = codes "f"

abbrev pub to : MemberAction
to = codes "t"

pub record GroupMember : Type 0 where
  pub id : Jid
  pub name : Bytes
  pub gid : Gid
  pub action : MemberAction

pub record Group : Type 0 where
  pub id : Gid
  pub owner : Option GroupMember
  pub name : Bytes
  pub comment : Bytes
  pub lastlog : Bytes

pub record GroupRsp : Type 0 where
  pub group : Option Group
  pub error : Bytes

pub record GroupMemberReq : Type 0 where
  pub gid : Gid
  pub id : Jid
  pub action : MemberAction
  pub members : List (Option GroupMember)

pub record GroupMemberRsp : Type 0 where
  pub action : MemberAction
  pub result : Bytes
  pub error : Bytes

pub record MemberItem : Type 0 where
  pub id : Jid
  pub prve : Jid
  pub next : Jid
  pub member : Option GroupMember

pub record MemberLog : Type 0 where
  pub id : Bytes
  pub prve : Bytes
  pub next : Bytes
  pub action : MemberAction
  pub gid : Gid
  pub member_id : Jid

unfoldable pub group_prefix : Bytes
group_prefix = codes "GROUP"

unfoldable pub member_prefix : Bytes
member_prefix = codes "GROUP_MEMBER"

-- `memberK`: fmt.Sprintf("%s_%s_member", gid, id)
unfoldable pub member_key : Gid → Jid → Bytes
member_key gid id = gid ++ codes "_" ++ id ++ codes "_member"

-- `memberLastK`
unfoldable pub member_last_key : Gid → Bytes
member_last_key gid = gid ++ codes "_member_last"

-- `memberLogK`
unfoldable pub member_log_key : Gid → Bytes → Bytes
member_log_key gid id = gid ++ codes "_" ++ id ++ codes "_memberlog"

-- `memberLastlogK`
unfoldable pub member_last_log_key : Gid → Bytes
member_last_log_key gid = gid ++ codes "_memberlog_last"

-- amino at the types that are stored or sent.
pub record GroupCodecs : Type 0 where
  pub item : Codec MemberItem
  pub log : Codec MemberLog
  pub group : Codec Group
  pub group_rsp : Codec GroupRsp
  pub member_req : Codec GroupMemberReq
  pub member_rsp : Codec GroupMemberRsp

-- The field `action` of a member is not exported, so amino leaves it out.
abbrev pub exported : GroupMember → GroupMember
exported m = record m { action = [] }

abbrev pub exported_item : MemberItem → MemberItem
exported_item i = record i { member = Option.map exported i.member }

abbrev pub exported_group : Group → Group
exported_group g = record g { owner = Option.map exported g.owner }

abbrev pub exported_req : GroupMemberReq → GroupMemberReq
exported_req r = record r { members = map (Option.map exported) r.members }

abbrev pub exported_rsp : GroupRsp → GroupRsp
exported_rsp r = record r { group = Option.map exported_group r.group }

-- What the stored types rely on.
pub record StoredLaws (c : GroupCodecs) : Type 0 where
  pub item : CodecLaws c.item exported_item
  pub log : CodecLaws c.log (λ l. l)
  pub group : CodecLaws c.group exported_group

-- And the types that are sent.
pub record SentLaws (c : GroupCodecs) : Type 0 where
  pub group_rsp : CodecLaws c.group_rsp exported_rsp
  pub member_req : CodecLaws c.member_req exported_req
  pub member_rsp : CodecLaws c.member_rsp (λ r. r)
