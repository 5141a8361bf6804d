-- ===== src/Group/Requests.antt =====
-- Member requests as they come over the wire.
use mathlib.Core.Option
use mathlib.Core.List.{reverse}
use go_achat_node.Prelude.{
  ℕ, suc, ◌≤◌, ◌<◌, ◌≡◌, ◌⊎◌, inl, inr, refl, sym, ap, Option, none, some, List, [], ◌∷◌,
  if◌then◌else◌, map, Bytes, beq, length, All, ok, err,
}
use mathlib.Core.Path.{subst}
use go_achat_node.Ldb.{Database}
use go_achat_node.Ldb.Laws.{DatabaseLaws}
use go_achat_node.Ldb.Table.{new_table-DatabaseLaws}
use go_achat_node.Types.{Gid}
use go_achat_node.Types.Codecs.{CodecLaws}
use go_achat_node.Group.{
  add, sub, from, to, GroupMember, Group, GroupMemberReq, GroupMemberRsp, GroupCodecs, StoredLaws,
  SentLaws, exported, exported_req, member_prefix,
}
use go_achat_node.Group.Members.{handle_member}
use go_achat_node.Group.Groups.{member_tab, get_group}
use go_achat_node.Group.Service.{
  success, query_answer, handle_members, member_action, member_handler,
}
use go_achat_node.Group.Views.{item_at}
use go_achat_node.Group.Chain.{head_id, last_id, IsChain}
use go_achat_node.Group.Roster.{IsRoster}
use go_achat_node.Group.Faults.{unsupported, handle_member-refused}
use go_achat_node.Group.Walking.{shown, query_member_lem}

module _ {S : Type 0} (db : Database S) (laws : DatabaseLaws db) (codecs : GroupCodecs)
    (formats : StoredLaws codecs) (sent : SentLaws codecs) where
  pub member_tab-DatabaseLaws : DatabaseLaws (member_tab db)
  unfolding member_tab
  member_tab-DatabaseLaws = new_table-DatabaseLaws db laws member_prefix

  abbrev Roster : Gid → S → List GroupMember → Type 0
  Roster = IsRoster (member_tab db) codecs

  -- A member that came over the wire has no action, so it is refused.
  handle_exported :
      (uuid : Bytes) (gid : Gid) (r : GroupMember) (s : S) (ms : List GroupMember)
      → r.gid ≡ gid
      → Roster gid s ms
      → (e : Bytes) × (t : S) × (handle_member (member_tab db) codecs uuid (exported r) s
          ≡ (err e, t))
        × Roster gid t ms
  unfolding beq
  handle_exported uuid gid r s ms same roster =
      let at_r = subst (λ (g : Gid). Roster g s ms) (sym same) roster in
      let (refused, kept, _) =
        handle_member-refused (member_tab db) member_tab-DatabaseLaws codecs formats uuid
          (exported r) s ms (unsupported refl refl) at_r in
      (
        refused.0,
        (handle_member (member_tab db) codecs uuid (exported r) s).1,
        (λ i. (refused.1 i, (handle_member (member_tab db) codecs uuid (exported r) s).1)),
        subst
            (λ (g : Gid). Roster g (handle_member (member_tab db) codecs uuid (exported r) s).1 ms)
            same kept,
      )

  handle_members-exported :
      (uuids : ℕ → Bytes) (gid : Gid) (rs : List GroupMember) (s : S) (ms : List GroupMember)
      → All (λ r. r.gid ≡ gid) rs
      → Roster gid s ms
      → (t : S) × (handle_members db codecs uuids (map (Option.map exported) (map some rs)) s
          ≡ (ok tt, t))
        × Roster gid t ms
  unfolding handle_members
  handle_members-exported uuids gid [] s ms h roster = (s, refl, roster)
  handle_members-exported uuids gid (r ∷ rs) s ms h roster =
      let (e, t, refused, roster') = handle_exported (uuids 0) gid r s ms h.0 roster in
      let (u, rest, roster'') =
        handle_members-exported (λ n. uuids (suc n)) gid rs t ms h.1 roster' in
      (u, rw refused rest, roster'')

  member_action-change :
      (fuel : ℕ) (uuids : ℕ → Bytes) (req : GroupMemberReq) (rsp : GroupMemberRsp) (s t : S)
      → (rsp.action ≡ add) ⊎ (rsp.action ≡ sub)
      → handle_members db codecs uuids req.members s ≡ (ok tt, t)
      → member_action db codecs fuel uuids req rsp s
        ≡ (ok (some (record rsp { result = success }, none)), t)
  unfolding member_action beq
  member_action-change fuel uuids req rsp s t (inl e) h = rw e (rw h)
  member_action-change fuel uuids req rsp s t (inr e) h = rw e (rw h)

  -- An ADD or SUB request of at most 4096 bytes that arrives over the wire, for a group that is found
  -- and with members that name it, is answered with success and changes nobody: the `action` that
  -- `handleMember` looks at is not sent, so each member is refused and the list stays as it was.
  pub member_handler-change :
      (fuel : ℕ) (uuids : ℕ → Bytes) (s : S) (g : Group) (req : GroupMemberReq)
      (rs ms : List GroupMember)
      → (req.action ≡ add) ⊎ (req.action ≡ sub)
      → req.members ≡ map some rs
      → All (λ r. r.gid ≡ req.gid) rs
      → length (CodecLaws.image sent.member_req req) ≤ 4096
      → get_group db codecs s req.gid ≡ ok g
      → Roster req.gid s ms
      → let (answer, t) =
          member_handler db codecs fuel uuids (CodecLaws.image sent.member_req req) s in
        (answer ≡ ok (some (record { action = req.action; result = success; error = [] }, none)))
        × Roster req.gid t ms
  unfolding member_handler
  member_handler-change fuel uuids s g req rs ms change members own small found roster =
      let (t, done, roster') = handle_members-exported uuids req.gid rs s ms own roster in
      let read = CodecLaws.read-image sent.member_req 4096 req small in
      let wire = ap (map (Option.map exported)) members in
      let answered =
        member_action-change fuel uuids (exported_req req)
          (record { action = req.action; result = []; error = [] }) s t change (rw wire done) in
      rw (read, found, answered) (refl, roster')

  -- The members in the direction of the query.
  abbrev listed : GroupMemberReq → List GroupMember → List (Option GroupMember)
  listed req ms = if beq req.action from then map shown ms else reverse (map shown ms)

  member_action-query :
      (fuel : ℕ) (uuids : ℕ → Bytes) (req : GroupMemberReq) (s : S) (ms : List GroupMember)
      → ((req.action ≡ from) × (req.id ≡ head_id ms []))
        ⊎ ((req.action ≡ to) × (req.id ≡ last_id [] ms))
      → length ms < fuel
      → IsChain (item_at (member_tab db) codecs req.gid s) ms
      → member_action db codecs fuel uuids req
          (record { action = req.action; result = []; error = [] })
          s
        ≡ (
          ok (
              some (
                record {
                  action = req.action;
                  result = CodecLaws.image sent.member_req (record req { members = listed req ms });
                  error = [];
                },
                none,
              )),
          s,
        )
  unfolding member_action beq query_answer
  member_action-query fuel uuids req s ms (inl (a, i)) enough chain = simp (
    a,
    i,
    (query_member_lem (member_tab db) codecs req.gid s fuel ms enough chain).0,
    CodecLaws.marshal_eq sent.member_req,
  )
  member_action-query fuel uuids req s ms (inr (a, i)) enough chain = simp (
    a,
    i,
    (query_member_lem (member_tab db) codecs req.gid s fuel ms enough chain).1,
    CodecLaws.marshal_eq sent.member_req,
  )

  -- A query of at most 4096 bytes over the wire, for a group that is found, FROM its first member or TO
  -- from its last, is answered with the members in the order asked for, given fuel beyond their
  -- number; the store stays as it was.
  pub member_handler-query :
      (fuel : ℕ) (uuids : ℕ → Bytes) (s : S) (g : Group) (req : GroupMemberReq)
      (ms : List GroupMember)
      → ((req.action ≡ from) × (req.id ≡ head_id ms []))
        ⊎ ((req.action ≡ to) × (req.id ≡ last_id [] ms))
      → length ms < fuel
      → length (CodecLaws.image sent.member_req req) ≤ 4096
      → get_group db codecs s req.gid ≡ ok g
      → IsChain (item_at (member_tab db) codecs req.gid s) ms
      → member_handler db codecs fuel uuids (CodecLaws.image sent.member_req req) s ≡ (
        ok (
            some (
              record {
                action = req.action;
                result = CodecLaws.image sent.member_req (record req { members = listed req ms });
                error = [];
              },
              none,
            )),
        s,
      )
  unfolding member_handler
  member_handler-query fuel uuids s g req ms q enough small found chain =
      let read = CodecLaws.read-image sent.member_req 4096 req small in
      rw (read, found) (member_action-query fuel uuids (exported_req req) s ms q enough chain)
