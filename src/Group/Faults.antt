-- ===== src/Group/Faults.antt =====
-- `handleMember` of mailbox_group.go: the changes that it refuses, and a repeated ADD.
use go_achat_node.Prelude.{
  ℕ, ◌≡◌, refl, sym, ap, ◌∙◌, none, false, List, [], ◌∷◌, ◌++◌, Bytes, beq, beq_refl, codes,
  Outcome, ok, err,
}
use go_achat_node.Ldb.{Database}
use go_achat_node.Ldb.Laws.{DatabaseLaws}
use go_achat_node.Types.{Jid}
use go_achat_node.Group.{
  GroupMember, MemberItem, GroupCodecs, StoredLaws, add, sub, to, exported_item,
  member_last_log_key,
}
use go_achat_node.Group.Members.{sub_member, apply_action, handle_member, query_member, query_loop}
use go_achat_node.Group.Views.{item_at}
use go_achat_node.Group.Chain.{update, has_id, head_id, last_id, linked, IsChain}
use go_achat_node.Group.Roster.{IsRoster, end_item}
use go_achat_node.Group.Handling.{
  logged, finish, linked_entry, handle_member-eq, IsRoster-logged, item_at-last_log,
  last_log-logged,
}
use go_achat_node.Group.Adding.{add_member-next, items-next_state, apply_action-add, joining}
use go_achat_node.Group.Leaving.{apply_action-sub}
use go_achat_node.Group.Walking.{query_to_loops}

-- The changes that are refused: an action that is neither ADD nor SUB, SUB of an id that is not a
-- member, and SUB of the first member, the owner.
pub data IsRefused (gm : GroupMember) : List GroupMember → Type 0 where
  unsupported :
      {ms : List GroupMember}
      → beq gm.action add ≡ false
      → beq gm.action sub ≡ false
      → IsRefused gm ms
  unknown : {ms : List GroupMember} → gm.action ≡ sub → has_id ms gm.id ≡ false → IsRefused gm ms
  first :
      {m : GroupMember} {ms : List GroupMember}
      → gm.action ≡ sub
      → gm.id ≡ m.id
      → IsRefused gm (m ∷ ms)

module _ {S : Type 0} (tab : Database S) (laws : DatabaseLaws tab) (codecs : GroupCodecs)
    (formats : StoredLaws codecs) (uuid : Bytes) (gm : GroupMember) where
  abbrev view : S → Jid → Outcome MemberItem
  view = item_at tab codecs gm.gid

  sub_member-missing :
      (s : S) {e : Bytes} → view s gm.id ≡ err e → sub_member tab codecs gm s ≡ (err e, s)
  unfolding sub_member
  sub_member-missing s h = rw h

  sub_member-first :
      (s : S) {i : MemberItem} {e : Bytes}
      → view s gm.id ≡ ok i
      → view s i.prve ≡ err e
      → sub_member tab codecs gm s ≡ (err e, s)
  unfolding sub_member
  sub_member-first s h k = rw h (rw k)

  refusal :
      (s : S) (ms : List GroupMember)
      → IsRefused gm ms
      → IsChain (view s) ms
      → (e : Bytes) × (apply_action tab codecs gm s ≡ (err e, s))
  unfolding apply_action
  refusal s ms (unsupported na ns) c = (codes "not support opt", rw (na, ns))
  refusal s ms (unknown is_sub out) c =
      let a = c.absent gm.id out in
      (a.0, apply_action-sub tab laws codecs formats gm s is_sub ∙ sub_member-missing s a.1)
  refusal s (m ∷ ms) (first is_sub same) c =
      let a = c.absent [] c.named in
      let itm : view s gm.id ≡ ok (linked [] m (head_id ms [])) = rw same c.links.0 in
      (a.0, apply_action-sub tab laws codecs formats gm s is_sub ∙ sub_member-first s itm a.1)

  -- A refused change returns an error and leaves the list, the record of the last member and that of
  -- the last log entry as they were.
  pub handle_member-refused :
      (s : S) (ms : List GroupMember)
      → IsRefused gm ms
      → IsRoster tab codecs gm.gid s ms
      → ((e : Bytes) × ((handle_member tab codecs uuid gm s).0 ≡ err e))
        × IsRoster tab codecs gm.gid (handle_member tab codecs uuid gm s).1 ms
        × (tab.get (handle_member tab codecs uuid gm s).1 (member_last_log_key gm.gid)
            ≡ tab.get s (member_last_log_key gm.gid))
  handle_member-refused s ms why r =
      let s' = logged tab laws codecs formats uuid gm s in
      let r' = IsRoster-logged tab laws codecs formats uuid gm s ms r in
      let (e, refused) = refusal s' ms why r'.chain in
      rw (handle_member-eq tab laws codecs formats uuid gm s, refused)
        ((e, refl), r', last_log-logged tab laws codecs formats uuid gm s)

  -- ADD of the member that is last already links its item back to itself: a query TO from it never
  -- ends, whatever the fuel.
  pub handle_member-add_last_again :
      (s : S) (xs : List GroupMember) (l : GroupMember) (fuel : ℕ)
      → gm.action ≡ add
      → gm.id ≡ l.id
      → IsRoster tab codecs gm.gid s (xs ++ l ∷ [])
      → query_member tab codecs fuel (handle_member tab codecs uuid gm s).1 gm.gid to gm.id ≡ none
  unfolding query_member
  handle_member-add_last_again s xs l fuel is_add same r =
      let s' = logged tab laws codecs formats uuid gm s in
      let end = linked (last_id [] xs) l [] in
      let r' = IsRoster-logged tab laws codecs formats uuid gm s (xs ++ l ∷ []) r in
      let added =
        add_member-next tab laws codecs formats gm s' end (end_item tab codecs gm.gid s' xs l r') in
      let entry =
        linked_entry tab laws codecs formats uuid gm (tab.get s (member_last_log_key gm.gid)) in
      let items = items-next_state tab laws codecs formats gm s' end in
      let itm : update gm.id (ok (exported_item (joining l.id gm)))
            (update l.id (ok (exported_item (record end { next = gm.id }))) (view s')) gm.id
          ≡ ok (exported_item (joining l.id gm)) =
        rw (beq_refl gm.id) in
      let state =
        ap (λ (p : Outcome (Unit {0}) × S). p.1)
          (handle_member-eq tab laws codecs formats uuid gm s
            ∙ ap (finish tab laws codecs formats uuid gm entry)
                (apply_action-add tab laws codecs formats gm s' is_add ∙ added)) in
      ap (λ (t : S). query_loop tab codecs fuel t gm.gid to [] gm.id) state
      ∙ query_to_loops tab codecs gm.gid _ fuel [] gm.id
          (ap (λ (f : Jid → Outcome MemberItem). f gm.id)
              (item_at-last_log tab laws codecs formats uuid gm _ entry ∙ items)
            ∙ itm)
          (sym same)
