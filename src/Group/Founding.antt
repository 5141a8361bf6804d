-- ===== src/Group/Founding.antt =====
-- The handler of PID_MAILBOX_GROUP_UPDATE in mailbox_group.go, for a group that is not there yet.
use mathlib.Core.Path.{fun_ext}
use mathlib.Core.List.{append_cancel_left}
use go_achat_node.Prelude.{
  ◌≤◌, ◌*◌, ◌≡◌, ◌≢◌, refl, sym, ap, ◌∙◌, false, none, some, [], ◌∷◌, ◌++◌, Bytes, codes, beq,
  beq_ne, length, Outcome, ok, err, attempt_from, panic, bind_from, pure,
}
use go_achat_node.Ldb.{Database, new_table}
use go_achat_node.Ldb.Laws.{DatabaseLaws}
use go_achat_node.Ldb.Table.{new_table-DatabaseLaws}
use go_achat_node.Types.{Jid, Gid, max_pkg}
use go_achat_node.Types.Codecs.{CodecLaws}
use go_achat_node.Group.{
  GroupMember, Group, GroupCodecs, StoredLaws, add, exported_group, group_prefix, member_prefix,
  member_key, member_last_key,
}
use go_achat_node.Group.Members.{decode, get_member, handle_member}
use go_achat_node.Group.Groups.{group_tab, member_tab, get_group, save_group, init_member}
use go_achat_node.Group.Service.{update_handler}
use go_achat_node.Group.Roster.{IsRoster, IsRoster-of_same}
use go_achat_node.Group.Adding.{handle_member-add}
use go_achat_node.Group.Framing.{Keeps-handle_member}
use go_achat_node.Group.Ownership.{
  latest, owned_by, saved, saved-eq, get-saved, members_kept, owner-latest, get_group_of,
  update_handler-saved,
}

-- The member that a new group starts with.
abbrev pub founder : Jid → Gid → GroupMember
founder caller gid = record { id = caller; name = []; gid = gid; action = add }

attempted :
    {S : Type 0} (p : Outcome (Unit {0}) × S)
    → p.0 ≡ ok tt
    → bind_from (λ (r : Outcome (Unit {0})). pure tt) (attempt_from p) ≡ (ok tt, p.1)
attempted (ok u, s) h = refl
attempted (err e, s) h = cc
attempted (panic, s) h = cc

module _ {S : Type 0} (db : Database S) (laws : DatabaseLaws db) (codecs : GroupCodecs)
    (formats : StoredLaws codecs) where
  abbrev tab : Database S
  tab = member_tab db

  tab_laws : DatabaseLaws tab
  unfolding member_tab
  tab_laws = new_table-DatabaseLaws db laws member_prefix

  -- A change of members leaves the record of the group alone, unless the group's id leads into the
  -- member table.
  group_kept :
      (uuid : Bytes) (gm : GroupMember) (gid : Gid) (s : S) {r : Outcome Bytes}
      → ((k : Bytes) → gid ≢ codes "_MEMBER" ++ k)
      → (group_tab db).get s gid ≡ r
      → (group_tab db).get (handle_member tab codecs uuid gm s).1 gid ≡ r
  unfolding group_tab new_table tab_laws new_table-DatabaseLaws group_prefix member_prefix
  group_kept uuid gm gid s {r} apart =
      Keeps-handle_member tab tab_laws codecs (λ t. (group_tab db).get t gid ≡ r) (λ _. Unit {0})
        (λ t k v _ h.
          laws.get-stored t (member_prefix ++ k) v (group_prefix ++ gid) ∙ rw (other k) h)
        (λ t k _ h. laws.get-removed t (member_prefix ++ k) (group_prefix ++ gid) ∙ rw (other k) h)
        gm (λ _. tt) tt (λ _. tt) tt uuid s
    where
      other : (k : Bytes) → beq (member_prefix ++ k) (group_prefix ++ gid) ≡ false
      other k =
          beq_ne (codes "GROUP_MEMBER" ++ k) (codes "GROUP" ++ gid)
            (λ e. apart k (sym (append_cancel_left (codes "GROUP") (codes "_MEMBER" ++ k) gid e)))

  abbrev founded : Bytes → Jid → Group → S → S
  founded uuid caller req s =
      (handle_member tab codecs uuid (founder caller req.id)
        (saved db laws codecs formats caller req s)).1

  no_members_saved :
      (caller : Jid) (req : Group) (s : S)
      → ((k : Bytes) → req.id ≢ codes "_MEMBER" ++ k)
      → IsRoster tab codecs req.id s []
      → IsRoster tab codecs req.id (saved db laws codecs formats caller req s) []
  unfolding get_member
  no_members_saved caller req s apart =
      let kept = λ (j : Bytes). members_kept db laws codecs formats caller req s j apart in
      IsRoster-of_same tab codecs req.id s (saved db laws codecs formats caller req s) []
        (fun_ext λ id. ap (decode codecs.item) (kept (member_key req.id id)))
        (kept (member_last_key req.id))

  init_member-founded :
      (uuid caller : Bytes) (req : Group) (s : S)
      → ((k : Bytes) → req.id ≢ codes "_MEMBER" ++ k)
      → caller ≢ []
      → IsRoster tab codecs req.id s []
      → (save_group db codecs uuid (owned_by db laws codecs formats caller req) s
          ≡ (ok tt, founded uuid caller req s))
        × IsRoster tab codecs req.id (founded uuid caller req s) (founder caller req.id ∷ [])
  unfolding save_group init_member
  init_member-founded uuid caller req s apart named roster =
      let s₁ = saved db laws codecs formats caller req s in
      let roster₁ = no_members_saved caller req s apart roster in
      let (e, none_yet) = roster₁.tail in
      let (done, roster₂) =
        handle_member-add tab tab_laws codecs formats (founder caller req.id) uuid s₁ [] refl named
          refl roster₁ in
      (rw (saved-eq db laws codecs formats caller req s) (rw none_yet (attempted _ done)), roster₂)

  -- An update of a group without members, by a caller with a non-empty id, is answered with the group
  -- under the caller's ownership, which is what the store then holds; the caller is then the one
  -- member of the group. The group's id is not empty and does not start with _MEMBER, and the request
  -- is within its limit of size.
  pub update_handler_founds :
      (uuid caller : Bytes) (req : Group) (s : S)
      → beq req.id [] ≡ false
      → ((k : Bytes) → req.id ≢ codes "_MEMBER" ++ k)
      → caller ≢ []
      → length (CodecLaws.image formats.group req) ≤ 10 * max_pkg
      → IsRoster tab codecs req.id s []
      → let (answer, t) =
          update_handler db codecs uuid caller (CodecLaws.image formats.group req) s in
        ((g : Group) × (answer ≡ ok (record { group = some g; error = [] }, none))
          × (get_group db codecs t req.id ≡ ok g)
          × (g.owner ≡ some (record { id = caller; name = []; gid = []; action = [] })))
        × IsRoster tab codecs req.id t (founder caller req.id ∷ [])
  update_handler_founds uuid caller req s some_id apart named small roster =
      let t = founded uuid caller req s in
      let (done, roster') = init_member-founded uuid caller req s apart named roster in
      let held =
        group_kept uuid (founder caller req.id) req.id (saved db laws codecs formats caller req s)
          apart (get-saved db laws codecs formats caller req s) in
      let g =
        latest db laws codecs formats t
          (exported_group (owned_by db laws codecs formats caller req)) in
      rw (update_handler-saved db laws codecs formats uuid caller req s t some_id small done held) (
        (
          g,
          refl,
          get_group_of db laws codecs formats caller req t held,
          owner-latest db laws codecs formats t
              (exported_group (owned_by db laws codecs formats caller req)),
        ),
        roster',
      )
