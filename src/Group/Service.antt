-- ===== src/Group/Service.antt =====
-- `groupService`: the handlers of member and group requests; and `genGroup`, the client.
use go_achat_node.Prelude.{
  ℕ, suc, ◌*◌, ◌||◌, Option, none, some, List, [], ◌∷◌, ◌++◌, Bytes, beq, codes, if◌then◌else◌,
  Outcome, ok, err, panic, Error, Exec, pure, fail, attempt, ◌>>=◌, ◌>>◌,
}
use go_achat_node.Ldb.{Database}
use go_achat_node.Types.{Jid, Gid, mailid, max_pkg}
use go_achat_node.Group.{
  add, sub, from, to, GroupMember, Group, GroupRsp, GroupMemberReq, GroupMemberRsp, GroupCodecs,
}
use go_achat_node.Group.Members.{or_error, handle_member, query_member}
use go_achat_node.Group.Groups.{member_tab, get_group, save_group}

-- `SUCCESS`
unfoldable pub success : Bytes
success = codes "success"

-- `Group.FromReader`
abbrev pub group_from_reader : GroupCodecs → Bytes → Group × Error
group_from_reader codecs input = codecs.group.read (10 * max_pkg) input

-- `GroupRsp.FromBytes`
abbrev pub group_rsp_from_bytes : GroupCodecs → Bytes → GroupRsp × Error
group_rsp_from_bytes codecs data' = codecs.group_rsp.unmarshal data'

-- What a handler writes back and what it returns; `none` when a query does not come to an end.
abbrev pub Answer : Type 0 → Type 0
Answer R = Option (R × Error)

module _ {S : Type 0} (db : Database S) (codecs : GroupCodecs) where
  -- The loop over the members of an ADD or SUB request: the result of each is dropped, and a nil
  -- member panics.
  unfoldable pub handle_members : (ℕ → Bytes) → List (Option GroupMember) → Exec S (Unit {0})
  handle_members uuids [] = pure tt
  handle_members uuids (none ∷ rest) = λ s. (panic, s)
  handle_members uuids (some r ∷ rest) = do
    attempt (handle_member (member_tab db) codecs (uuids 0) r)
    handle_members (λ n. uuids (suc n)) rest

  result_of : GroupMemberRsp → Bytes × Error → GroupMemberRsp × Error
  result_of rsp (result, none) = (record rsp { result = result }, none)
  result_of rsp (result, some e) = (record rsp { error = e }, some e)

  unfoldable pub query_answer :
      GroupMemberReq → GroupMemberRsp → Option (List (Option GroupMember)) → Answer GroupMemberRsp
  unfolding result_of
  query_answer req rsp none = none
  query_answer req rsp (some members) =
      some (result_of rsp (codecs.member_req.marshal (record req { members = members })))

  -- The `switch` on the action, once the group is found.
  unfoldable pub member_action :
      ℕ → (ℕ → Bytes) → GroupMemberReq → GroupMemberRsp → Exec S (Answer GroupMemberRsp)
  unfolding query_answer handle_members
  member_action fuel uuids req rsp =
      if beq rsp.action add || beq rsp.action sub
      then (do
        handle_members uuids req.members
        pure (some (record rsp { result = success }, none)))
      else if beq rsp.action from || beq rsp.action to
      then (λ s. (
        ok (
            query_answer req rsp
              (query_member (member_tab db) codecs fuel s req.gid req.action req.id)),
        s,
      ))
      else pure (some (record rsp { error = codes "action not support" }, none))

  member_found : ℕ → (ℕ → Bytes) → GroupMemberReq → Outcome Group → Exec S (Answer GroupMemberRsp)
  unfolding member_action
  member_found fuel uuids req (ok group) =
      member_action fuel uuids req (record { action = req.action; result = []; error = [] })
  member_found fuel uuids req (err e) =
      pure (
        some (record { action = req.action; result = []; error = codes "group not found" }, some e))
  member_found fuel uuids req panic = λ s. (panic, s)

  member_request : ℕ → (ℕ → Bytes) → GroupMemberReq × Error → Exec S (Answer GroupMemberRsp)
  unfolding member_found
  member_request fuel uuids (req, none) s =
      member_found fuel uuids req (get_group db codecs s req.gid) s
  member_request fuel uuids (req, some e) s =
      (ok (some (record { action = []; result = []; error = e }, some e)), s)

  -- The handler of PID_MAILBOX_GROUP_MEMBER.
  unfoldable pub member_handler : ℕ → (ℕ → Bytes) → Bytes → Exec S (Answer GroupMemberRsp)
  unfolding member_request
  member_handler fuel uuids input = member_request fuel uuids (codecs.member_req.read 4096 input)

  refuse : Bytes → Exec S (GroupRsp × Error)
  refuse e = pure (record { group = none; error = e }, some e)

  saved_group : Group → Outcome (Unit {0}) → Exec S (GroupRsp × Error)
  unfolding refuse
  saved_group req (ok _) s = elim (get_group db codecs s req.id) [
    | ok g ↦ (ok (record { group = some g; error = [] }, none), s)
    | err e ↦ refuse e s
    | panic ↦ (panic, s)
  ]
  saved_group req (err e) s = refuse e s
  saved_group req panic s = (panic, s)

  update_request : Bytes → Bytes → Group × Error → Exec S (GroupRsp × Error)
  unfolding saved_group
  update_request uuid caller (req, some e) = refuse e
  update_request uuid caller (req, none) =
      if beq req.id [] then refuse (codes "req.Id not be nil") else (do
        let owned = record req {
          owner = some (record { id = caller; name = []; gid = []; action = [] });
        }
        saved ← attempt (save_group db codecs uuid owned)
        saved_group owned saved)

  -- The handler of PID_MAILBOX_GROUP_UPDATE, for the caller with the encoded public key `caller`.
  unfoldable pub update_handler : Bytes → Bytes → Bytes → Exec S (GroupRsp × Error)
  unfolding update_request
  update_handler uuid caller input = update_request uuid caller (group_from_reader codecs input)

-- `newGID`, with the encoded public key that was generated.
unfoldable pub new_gid : Bytes → Jid → Gid
new_gid pubkey myid = pubkey ++ mailid myid

module _ {N : Type 0} (request : Bytes → Bytes → Bytes → Exec N Bytes) (codecs : GroupCodecs) where
  group_sent : Bytes → Bytes × Error → Exec N GroupRsp
  group_sent to' (pkg, none) s =
      (do
        rsp ← request to' (codes "/chat/mailbox/group/update/0.0.1") pkg
        λ n. (or_error (group_rsp_from_bytes codecs rsp), n))
        s
  group_sent to' (pkg, some e) s = (err e, s)

  -- `genGroup`; `request` is `RequestWithTimeout` of the p2p service.
  unfoldable pub gen_group : Bytes → Jid → Group → Exec N GroupRsp
  unfolding group_sent
  gen_group pubkey myid g =
      if beq (mailid myid) []
      then fail (codes "mailbox not found")
      else group_sent (mailid myid) (
          codecs.group.marshal
            (record g { id = if beq g.id [] then new_gid pubkey myid else g.id }))
