-- ===== src/Group/Handling.antt =====
-- `handleMember` on a working store, in two parts: the log entry, which is written first, and the
-- action, after which the entry becomes the last one.
use mathlib.Core.Path.{fun_ext}
use go_achat_node.Prelude.{◌∙◌, List, ◌≡◌, ◌≢◌, refl, [], Bytes, Outcome, ok, err, panic, bind_from}
use go_achat_node.Ldb.{Database}
use go_achat_node.Ldb.Laws.{DatabaseLaws}
use go_achat_node.Types.{Jid}
use go_achat_node.Types.Codecs.{CodecLaws}
use go_achat_node.Group.Roster.{IsTail, IsRoster, IsTail-of_same, IsRoster-of_same}
use go_achat_node.Group.{
  member_last_key, GroupMember, MemberLog, GroupCodecs, StoredLaws, member_last_log_key,
}
use go_achat_node.Group.Members.{apply_action, link_log, handle_member}
use go_achat_node.Group.Keys.{last, log, last_log}
use go_achat_node.Group.Views.{get-put_log, item_at, put_log, put_encoded-log, view_laws}

-- The entry of a change, before it is linked.
abbrev pub new_entry : Bytes → GroupMember → MemberLog
new_entry uuid gm = record {
  id = uuid;
  prve = [];
  next = [];
  action = gm.action;
  gid = [];
  member_id = gm.id;
}

module _ {S : Type 0} (tab : Database S) (laws : DatabaseLaws tab) (codecs : GroupCodecs)
    (formats : StoredLaws codecs) (uuid : Bytes) (gm : GroupMember) where
  -- The entry linked back to the last one that was read.
  abbrev pub linked_entry : Outcome Bytes → MemberLog
  linked_entry (ok buf) = record (new_entry uuid gm) { prve = (codecs.log.unmarshal buf).0.id }
  linked_entry _ = new_entry uuid gm

  abbrev pub link_back : Outcome Bytes → S → S
  link_back (ok buf) s =
      let l = (codecs.log.unmarshal buf).0 in
      put_log tab laws codecs formats gm.gid s (log l.id) (record l { next = uuid })
  link_back _ s = s

  -- The store once the entry is in the log.
  unfoldable pub logged : S → S
  logged s =
      let r = tab.get s (member_last_log_key gm.gid) in
      put_log tab laws codecs formats gm.gid (link_back r s) (log uuid) (linked_entry r)

  abbrev pub finish : MemberLog → Outcome (Unit {0}) × S → Outcome (Unit {0}) × S
  finish l (ok u, s) = (ok tt, put_log tab laws codecs formats gm.gid s last_log l)
  finish l (err e, s) = (err e, s)
  finish l (panic, s) = (panic, s)

  -- The log entry leaves the items and the record of the last member alone.
  item_at-link_back :
      (r : Outcome Bytes) (s : S) (id : Jid)
      → item_at tab codecs gm.gid (link_back r s) id ≡ item_at tab codecs gm.gid s id
  item_at-link_back (ok buf) s id = simp view_laws
  item_at-link_back (err e) s id = refl
  item_at-link_back panic s id = refl

  last-link_back :
      (r : Outcome Bytes) (s : S)
      → tab.get (link_back r s) (member_last_key gm.gid) ≡ tab.get s (member_last_key gm.gid)
  last-link_back (ok buf) s = get-put_log tab laws codecs formats gm.gid s (log _) last _
  last-link_back (err e) s = refl
  last-link_back panic s = refl

  pub item_at-logged : (s : S) → item_at tab codecs gm.gid (logged s) ≡ item_at tab codecs gm.gid s
  unfolding logged
  item_at-logged s = fun_ext λ id. simp view_laws (item_at-link_back _ s id)

  pub last-logged :
      (s : S) → tab.get (logged s) (member_last_key gm.gid) ≡ tab.get s (member_last_key gm.gid)
  unfolding logged
  last-logged s =
      get-put_log tab laws codecs formats gm.gid _ (log uuid) last _ ∙ last-link_back _ s

  -- The entry is written, and is not yet the last one.
  last_log-link_back :
      (r : Outcome Bytes) (s : S)
      → tab.get (link_back r s) (member_last_log_key gm.gid)
        ≡ tab.get s (member_last_log_key gm.gid)
  last_log-link_back (ok buf) s = get-put_log tab laws codecs formats gm.gid s (log _) last_log _
  last_log-link_back (err e) s = refl
  last_log-link_back panic s = refl

  pub last_log-logged :
      (s : S)
      → tab.get (logged s) (member_last_log_key gm.gid) ≡ tab.get s (member_last_log_key gm.gid)
  unfolding logged
  last_log-logged s =
      get-put_log tab laws codecs formats gm.gid _ (log uuid) last_log _ ∙ last_log-link_back _ s

  pub IsRoster-logged :
      (s : S) (ms : List GroupMember)
      → IsRoster tab codecs gm.gid s ms
      → IsRoster tab codecs gm.gid (logged s) ms
  IsRoster-logged s ms =
      IsRoster-of_same tab codecs gm.gid s (logged s) ms (item_at-logged s) (last-logged s)

  -- So does the move of the last entry.
  pub item_at-last_log :
      (s : S) (l : MemberLog)
      → item_at tab codecs gm.gid (put_log tab laws codecs formats gm.gid s last_log l)
        ≡ item_at tab codecs gm.gid s
  item_at-last_log s l = fun_ext λ id. simp view_laws

  pub last-last_log :
      (s : S) (l : MemberLog)
      → tab.get (put_log tab laws codecs formats gm.gid s last_log l) (member_last_key gm.gid)
        ≡ tab.get s (member_last_key gm.gid)
  last-last_log s l = get-put_log tab laws codecs formats gm.gid s last_log last l

  pub IsTail-last_log :
      (s : S) (l : MemberLog) (ms : List GroupMember)
      → IsTail tab codecs gm.gid s ms
      → IsTail tab codecs gm.gid (put_log tab laws codecs formats gm.gid s last_log l) ms
  IsTail-last_log s l ms =
      IsTail-of_same tab codecs gm.gid s (put_log tab laws codecs formats gm.gid s last_log l) ms
        (item_at-last_log s l) (last-last_log s l)

  pub IsRoster-last_log :
      (s : S) (l : MemberLog) (ms : List GroupMember)
      → IsRoster tab codecs gm.gid s ms
      → IsRoster tab codecs gm.gid (put_log tab laws codecs formats gm.gid s last_log l) ms
  IsRoster-last_log s l ms =
      IsRoster-of_same tab codecs gm.gid s (put_log tab laws codecs formats gm.gid s last_log l) ms
        (item_at-last_log s l) (last-last_log s l)

  link_log-eq :
      (r : Outcome Bytes) (s : S)
      → r ≢ panic
      → link_log tab codecs gm.gid r (new_entry uuid gm) s ≡ (ok (linked_entry r), link_back r s)
  unfolding link_log
  link_log-eq (ok buf) s calm =
      simp (put_encoded-log tab laws codecs formats gm.gid (log ((codecs.log.unmarshal buf).0).id))
  link_log-eq (err e) s calm = refl
  link_log-eq panic s calm = absurd (calm refl)

  linked_entry-id : (r : Outcome Bytes) → (linked_entry r).id ≡ uuid
  linked_entry-id (ok buf) = refl
  linked_entry-id (err e) = refl
  linked_entry-id panic = refl

  -- The last step of `handleMember` after the outcome of the action.
  finish-eq :
      (l : MemberLog) (p : Outcome (Unit {0}) × S)
      → bind_from (λ _. tab.put (member_last_log_key gm.gid) (CodecLaws.image formats.log l)) p
        ≡ finish l p
  unfolding put_log
  finish-eq l (ok u, s) = DatabaseLaws.put_eq laws _ _ s
  finish-eq l (err e, s) = refl
  finish-eq l (panic, s) = refl

  -- `handleMember` fails exactly with its action, and then the last entry is not moved on.
  pub handle_member-eq :
      (s : S)
      → handle_member tab codecs uuid gm s
        ≡ finish
            (linked_entry (tab.get s (member_last_log_key gm.gid)))
            (apply_action tab codecs gm (logged s))
  unfolding handle_member logged put_log
  handle_member-eq s =
      simp
        (
          link_log-eq _ s (DatabaseLaws.get_calm laws s (member_last_log_key gm.gid)),
          linked_entry-id,
          CodecLaws.marshal_eq formats.log,
          DatabaseLaws.put_eq laws,
        )
        (finish-eq _ _)
