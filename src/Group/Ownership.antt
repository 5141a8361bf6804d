-- ===== src/Group/Ownership.antt =====
-- The handler of PID_MAILBOX_GROUP_UPDATE in mailbox_group.go: who owns a group after an update.
use mathlib.Core.Path.{fun_ext}
use go_achat_node.Prelude.{
  ◌≤◌, ◌*◌, ◌∙◌, ◌≡◌, ◌≢◌, ◌⊎◌, inl, inr, false, beq_refl, refl, ap, none, some, List, [], ◌++◌,
  Bytes, codes, beq, length, Outcome, ok, err, panic, Error,
}
use mathlib.Core.List.{append_cancel_left}
use go_achat_node.Ldb.{Database, new_table}
use go_achat_node.Ldb.Laws.{DatabaseLaws}
use go_achat_node.Ldb.Table.{new_table_isolated, new_table-DatabaseLaws}
use go_achat_node.Types.{Jid, max_pkg}
use go_achat_node.Types.Codecs.{CodecLaws, to_bytes, to_bytes_lem}
use go_achat_node.Group.{
  GroupMember, MemberLog, Group, GroupRsp, GroupCodecs, StoredLaws, exported_group, group_prefix,
  member_prefix, member_key, member_last_key, member_last_log_key,
}
use go_achat_node.Group.Members.{decode, get_member}
use go_achat_node.Group.Groups.{
  group_tab, member_tab, with_lastlog, set_lastlog, get_group, save_group, init_member,
}
use go_achat_node.Group.Service.{update_handler}
use go_achat_node.Group.Roster.{IsRoster, IsRoster-of_same}

Outcome-cases :
    {A : Type 0} (r : Outcome A)
    → ((a : A) × (r ≡ ok a)) ⊎ (((e : Bytes) × (r ≡ err e)) ⊎ (r ≡ panic))
Outcome-cases (ok a) = inl (a, refl)
Outcome-cases (err e) = inr (inl (e, refl))
Outcome-cases panic = inr (inr refl)

module _ {S : Type 0} (db : Database S) (laws : DatabaseLaws db) (codecs : GroupCodecs)
    (formats : StoredLaws codecs) where
  abbrev pub owned_by : Jid → Group → Group
  owned_by caller req = record req {
    owner = some (record { id = caller; name = []; gid = []; action = [] });
  }

  -- The store once the record of the group is written.
  abbrev pub saved : Jid → Group → S → S
  saved caller req s = ((group_tab db).put req.id (to_bytes codecs.group (owned_by caller req)) s).1

  -- The member table does not see that, unless the group's id leads into it.
  pub members_kept :
      (caller : Jid) (req : Group) (s : S) (j : Bytes)
      → ((k : Bytes) → req.id ≢ codes "_MEMBER" ++ k)
      → (member_tab db).get (saved caller req s) j ≡ (member_tab db).get s j
  unfolding group_tab member_tab group_prefix member_prefix
  members_kept caller req s j apart =
      new_table_isolated db laws group_prefix member_prefix req.id
        (to_bytes codecs.group (owned_by caller req)) j s
        (λ e. apart j (append_cancel_left (codes "GROUP") req.id (codes "_MEMBER" ++ j) e))

  pub saved-eq :
      (caller : Jid) (req : Group) (s : S)
      → (group_tab db).put req.id (to_bytes codecs.group (owned_by caller req)) s
        ≡ (ok tt, saved caller req s)
  unfolding group_tab new_table
  saved-eq caller req s = λ i. (
    ap (λ (p : Outcome (Unit {0}) × S). p.0)
        (laws.put_eq (group_prefix ++ req.id) (to_bytes codecs.group (owned_by caller req)) s) i,
    saved caller req s,
  )

  pub get-saved :
      (caller : Jid) (req : Group) (s : S)
      → (group_tab db).get (saved caller req s) req.id
        ≡ ok (CodecLaws.image formats.group (owned_by caller req))
  unfolding group_tab new_table
  get-saved caller req s = simp (laws.put_eq, laws.get-stored, beq_refl, to_bytes_lem formats.group)

  save_group-eq :
      (uuid caller : Bytes) (req : Group) (s : S) {buf : Bytes}
      → ((k : Bytes) → req.id ≢ codes "_MEMBER" ++ k)
      → (member_tab db).get s (member_last_key req.id) ≡ ok buf
      → save_group db codecs uuid (owned_by caller req) s ≡ (ok tt, saved caller req s)
  unfolding save_group init_member
  save_group-eq uuid caller req s apart last =
      rw (saved-eq caller req s)
        (rw (members_kept caller req s (member_last_key req.id) apart, last) refl)

  latest_from : Group → Outcome Bytes → Group
  latest_from g (ok last) = with_lastlog db codecs g (codecs.log.unmarshal last)
  latest_from g _ = g

  -- The group with its last log entry, as the store has it.
  unfoldable pub latest : S → Group → Group
  unfolding latest_from
  latest s g = latest_from g ((member_tab db).get s (member_last_log_key g.id))

  owner-with_lastlog :
      (g : Group) (p : MemberLog × Error) → (with_lastlog db codecs g p).owner ≡ g.owner
  unfolding with_lastlog
  owner-with_lastlog g (last_log, none) = refl
  owner-with_lastlog g (last_log, some e) = refl

  owner-latest_from : (g : Group) (r : Outcome Bytes) → (latest_from g r).owner ≡ g.owner
  unfolding latest_from
  owner-latest_from g (ok last) = owner-with_lastlog g (codecs.log.unmarshal last)
  owner-latest_from g (err e) = refl
  owner-latest_from g panic = refl

  pub owner-latest : (s : S) (g : Group) → (latest s g).owner ≡ g.owner
  unfolding latest
  owner-latest s g = owner-latest_from g ((member_tab db).get s (member_last_log_key g.id))

  member_tab_calm : (s : S) (k : Bytes) → (member_tab db).get s k ≢ panic
  unfolding member_tab
  member_tab_calm s k = DatabaseLaws.get_calm (new_table-DatabaseLaws db laws member_prefix) s k

  set_lastlog-latest : (s : S) (g : Group) → set_lastlog db codecs s g ≡ ok (latest s g)
  unfolding set_lastlog latest latest_from
  set_lastlog-latest s g = elim (Outcome-cases ((member_tab db).get s (member_last_log_key g.id))) [
    | inl (last, e) ↦ rw (e, set_lastlog) refl
    | inr (inl (x, e)) ↦ rw (e, set_lastlog) refl
    | inr (inr e) ↦ absurd (member_tab_calm s (member_last_log_key g.id) e)
  ]

  -- A store that holds the record of an update gives the group under its new owner.
  pub get_group_of :
      (caller : Jid) (req : Group) (t : S)
      → (group_tab db).get t req.id ≡ ok (CodecLaws.image formats.group (owned_by caller req))
      → get_group db codecs t req.id ≡ ok (latest t (exported_group (owned_by caller req)))
  unfolding get_group
  get_group_of caller req t got =
      rw (got, CodecLaws.unmarshal-image formats.group (owned_by caller req), get_group)
        (ap (λ (p : Group × Error). set_lastlog db codecs t p.0)
            (CodecLaws.unmarshal-image formats.group (owned_by caller req))
          ∙ set_lastlog-latest t (exported_group (owned_by caller req)))

  -- What the handler makes of the group that it reads back.
  abbrev update_reply : S → Outcome Group → Outcome (GroupRsp × Error) × S
  update_reply t (ok g) = (ok (record { group = some g; error = [] }, none), t)
  update_reply t (err e) = (ok (record { group = none; error = e }, some e), t)
  update_reply t panic = (panic, t)

  -- The handler of an update, once the group is saved.
  pub update_handler-saved :
      (uuid caller : Bytes) (req : Group) (s t : S)
      → beq req.id [] ≡ false
      → length (CodecLaws.image formats.group req) ≤ 10 * max_pkg
      → save_group db codecs uuid (owned_by caller req) s ≡ (ok tt, t)
      → (group_tab db).get t req.id ≡ ok (CodecLaws.image formats.group (owned_by caller req))
      → update_handler db codecs uuid caller (CodecLaws.image formats.group req) s ≡ (
        ok (
          record { group = some (latest t (exported_group (owned_by caller req))); error = [] },
          none,
        ),
        t,
      )
  unfolding update_handler
  update_handler-saved uuid caller req s t some_id small done got =
      let read = CodecLaws.read-image formats.group (10 * max_pkg) req small in
      rw read (rw some_id (rw done (ap (update_reply t) (get_group_of caller req t got))))

  -- An update by any caller, whoever owned the group before, is answered with the group under the
  -- caller's ownership, which is what the store then holds; the list of members stays as it was. The
  -- group has a member already, its id is not empty and does not start with _MEMBER, and the request
  -- is within its limit of size.
  pub update_handler_takes_over :
      (uuid caller : Bytes) (req : Group) (s : S) (ms : List GroupMember) {buf : Bytes}
      → beq req.id [] ≡ false
      → ((k : Bytes) → req.id ≢ codes "_MEMBER" ++ k)
      → length (CodecLaws.image formats.group req) ≤ 10 * max_pkg
      → (member_tab db).get s (member_last_key req.id) ≡ ok buf
      → IsRoster (member_tab db) codecs req.id s ms
      → let (answer, t) =
          update_handler db codecs uuid caller (CodecLaws.image formats.group req) s in
        ((g : Group) × (answer ≡ ok (record { group = some g; error = [] }, none))
          × (get_group db codecs t req.id ≡ ok g)
          × (g.owner ≡ some (record { id = caller; name = []; gid = []; action = [] })))
        × IsRoster (member_tab db) codecs req.id t ms
  unfolding get_member
  update_handler_takes_over uuid caller req s ms some_id apart small last roster =
      let t = saved caller req s in
      let kept = λ (j : Bytes). members_kept caller req s j apart in
      let held = get-saved caller req s in
      let roster' =
        IsRoster-of_same (member_tab db) codecs req.id s t ms
          (fun_ext λ id. ap (decode codecs.item) (kept (member_key req.id id)))
          (kept (member_last_key req.id)) roster in
      rw
        (update_handler-saved uuid caller req s t some_id small
          (save_group-eq uuid caller req s apart last) held)
        (
          (
            latest t (exported_group (owned_by caller req)),
            refl,
            get_group_of caller req t held,
            owner-latest t (exported_group (owned_by caller req)),
          ),
          roster',
        )
