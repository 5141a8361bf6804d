-- ===== src/Rpc/Creating.antt =====
-- `CreateGroup` of chat over a mailbox that runs the handler of updates.
use go_achat_node.Prelude.{
  ◌≤◌, ◌*◌, ◌≡◌, ◌≢◌, refl, sym, ap, ◌∙◌, false, Option, none, some, [], ◌∷◌, ◌++◌, Bytes, codes,
  beq, length, if◌then◌else◌, ok, Exec,
}
use go_achat_node.Ldb.{Database}
use go_achat_node.Ldb.Laws.{DatabaseLaws}
use go_achat_node.Types.{Jid, max_pkg, mailid}
use go_achat_node.Types.Codecs.{CodecLaws}
use mathlib.Core.Option
use go_achat_node.Group.{
  exported, GroupMember, Group, GroupRsp, GroupCodecs, StoredLaws, SentLaws, exported_group,
  exported_rsp,
}
use go_achat_node.Group.Groups.{member_tab, get_group}
use go_achat_node.Group.Service.{update_handler, new_gid, gen_group}
use go_achat_node.Group.Roster.{IsRoster}
use go_achat_node.Group.Founding.{founder, update_handler_founds}
use go_achat_node.Rpc.Groups.{create_group}

module _ {N : Type 0} (db : Database N) (laws : DatabaseLaws db) (codecs : GroupCodecs)
    (formats : StoredLaws codecs) (sent : SentLaws codecs) (uuid caller : Bytes) where
  -- A peer `mb` runs the mailbox's handler of updates on the store, to which this node is `caller`:
  -- it answers with what the handler wrote, where the handler returned no error.
  pub record IsGroupMailbox (request : Bytes → Bytes → Bytes → Exec N Bytes) (mb : Bytes)
      : Type 0 where
    pub updates :
        (buf : Bytes) (r : GroupRsp) (s t : N)
        → update_handler db codecs uuid caller buf s ≡ (ok (r, none), t)
        → request mb (codes "/chat/mailbox/group/update/0.0.1") buf s
          ≡ (ok (CodecLaws.image sent.group_rsp r), t)

  module _ (request : Bytes → Bytes → Bytes → Exec N Bytes) (pubkey : Bytes) (myid : Jid) where
    -- The group with the id that it is created under.
    abbrev pub identified : Group → Group
    identified g = record g { id = if beq g.id [] then new_gid pubkey myid else g.id }

    create_group-updated :
        (g : Group) (s t : N) {r : GroupRsp}
        → beq (mailid myid) [] ≡ false
        → IsGroupMailbox request (mailid myid)
        → update_handler db codecs uuid caller (CodecLaws.image formats.group (identified g)) s
          ≡ (ok (r, none), t)
        → create_group request codecs pubkey myid (some g) s ≡ (ok (exported_rsp r), t)
    unfolding create_group gen_group
    create_group-updated g s t {r} boxed node done =
        rw (boxed, CodecLaws.marshal_eq formats.group (identified g))
          (rw (node.updates _ r s t done) (rw (CodecLaws.unmarshal-image sent.group_rsp r) refl))

    exported_owned :
        (g : Group)
        → g.owner ≡ some (record { id = caller; name = []; gid = []; action = [] })
        → exported_group g ≡ g
    exported_owned g owned =
        ap (λ (o : Option GroupMember). record g { owner = Option.map exported o }) owned
        ∙ sym (ap (λ (o : Option GroupMember). record g { owner = o }) owned)

    -- `CreateGroup` of a group without members, over a mailbox that knows this node by a non-empty
    -- id, gives the group that the mailbox then holds, owned by this node, which is its one member. The
    -- group's id, given or drawn, is not empty and does not start with _MEMBER, and the request is
    -- within its limit of size.
    pub create_group_founds :
        (g : Group) (s : N)
        → beq (mailid myid) [] ≡ false
        → IsGroupMailbox request (mailid myid)
        → beq (identified g).id [] ≡ false
        → ((k : Bytes) → (identified g).id ≢ codes "_MEMBER" ++ k)
        → caller ≢ []
        → length (CodecLaws.image formats.group (identified g)) ≤ 10 * max_pkg
        → IsRoster (member_tab db) codecs (identified g).id s []
        → let (answer, t) = create_group request codecs pubkey myid (some g) s in
          ((g' : Group) × (answer ≡ ok (record { group = some g'; error = [] }))
            × (get_group db codecs t (identified g).id ≡ ok g')
            × (g'.owner ≡ some (record { id = caller; name = []; gid = []; action = [] })))
          × IsRoster
              (member_tab db)
              codecs
              (identified g).id
              t
              (founder caller (identified g).id ∷ [])
    create_group_founds g s boxed node some_id apart named small roster =
        let ((g', answer, held, owned), roster') =
          update_handler_founds db laws codecs formats uuid caller (identified g) s some_id apart
            named small roster in
        let t =
          (update_handler db codecs uuid caller (CodecLaws.image formats.group (identified g))
            s).1 in
        rw (create_group-updated g s t boxed node (λ i. (answer i, t))) (
          (
            g',
            ap (λ (x : Group). ok (record { group = some x; error = [] }))
                (exported_owned g' owned),
            held,
            owned,
          ),
          roster',
        )
