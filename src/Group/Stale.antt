-- ===== src/Group/Stale.antt =====
-- `handleMember` of mailbox_group.go: SUB of the last member but one, and an ADD after it. The record
-- under `memberLastK` is a copy of the last item.
use mathlib.Core.Option
use go_achat_node.Prelude.{
  ℕ, suc, ◌≡◌, refl, ap, ◌∙◌, some, false, List, [], ◌∷◌, ◌++◌, Bytes, beq, beq_refl, Outcome, ok,
  err, arith,
}
use go_achat_node.Ldb.{Database}
use go_achat_node.Ldb.Laws.{DatabaseLaws}
use go_achat_node.Types.{Jid}
use go_achat_node.Group.{
  GroupMember, MemberItem, GroupCodecs, StoredLaws, add, sub, to, exported, exported_item,
}
use go_achat_node.Group.Members.{handle_member, apply_action, query_member, decode}
use go_achat_node.Group.Views.{item_at, last_at, view_laws}
use go_achat_node.Group.Chain.{beq_comm, has_id, has_id-append, last_id, linked, Distinct-middle}
use go_achat_node.Group.Roster.{IsRoster, last_of_IsTail}
use go_achat_node.Group.Handling.{
  logged, handle_member-eq, IsRoster-logged, item_at-last_log, last-last_log, item_at-logged,
  last-logged,
}
use go_achat_node.Group.Adding.{
  add_member-next, items-next_state, apply_action-add, joining, next_state,
}
use go_achat_node.Group.Leaving.{
  apply_action-sub, sub_member-bridged, bridged_state, before_item, next_item,
}
use go_achat_node.Group.Walking.{shown, visit-to, visit-err, query_loop-step, query_loop-stop}

module _ {S : Type 0} (tab : Database S) (laws : DatabaseLaws tab) (codecs : GroupCodecs)
    (formats : StoredLaws codecs) (uuid : Bytes) (gm : GroupMember) where
  abbrev view : S → Jid → Outcome MemberItem
  view = item_at tab codecs gm.gid

  -- The state after a change whose action succeeds with the state `t`.
  state_after :
      (s t : S)
      → (let s' = logged tab laws codecs formats uuid gm s in
          apply_action tab codecs gm s' ≡ (ok tt, t))
      → (view (handle_member tab codecs uuid gm s).1 ≡ view t)
        × (last_at tab codecs gm.gid (handle_member tab codecs uuid gm s).1
            ≡ last_at tab codecs gm.gid t)
  unfolding last_at
  state_after s t h =
      rw (handle_member-eq tab laws codecs formats uuid gm s, h)
        (
          item_at-last_log tab laws codecs formats uuid gm t _,
          ap (decode codecs.item) (last-last_log tab laws codecs formats uuid gm t _),
        )

  -- SUB of the last member but one, `x`: the list goes from `p` to `n`, `x` is gone, and the record
  -- of the last member still has `x` before `n`.
  handle_member-sub_last_but_one :
      (s : S) (xs : List GroupMember) (p x n : GroupMember)
      → gm.action ≡ sub
      → gm.id ≡ x.id
      → IsRoster tab codecs gm.gid s (xs ++ p ∷ x ∷ n ∷ [])
      → (last_at tab codecs gm.gid (handle_member tab codecs uuid gm s).1 ≡ ok (linked x.id n []))
        × (view (handle_member tab codecs uuid gm s).1 x.id ≡ err laws.not_found)
  handle_member-sub_last_but_one s xs p x n is_sub same r =
      let s' = logged tab laws codecs formats uuid gm s in
      let r' = IsRoster-logged tab laws codecs formats uuid gm s (xs ++ p ∷ x ∷ n ∷ []) r in
      let (hp, hx) = before_item tab laws codecs formats gm s' xs p x (n ∷ []) r'.chain in
      let hn = next_item tab laws codecs formats gm s' xs p x n [] r'.chain in
      let ip = linked (last_id [] xs) p x.id in
      let ix = linked p.id x n.id in
      let it = linked x.id n [] in
      let done =
        sub_member-bridged tab laws codecs formats gm s' ip ix it (ap (view s') same ∙ hx) hp hn in
      let t = bridged_state tab laws codecs formats gm s' ip ix it in
      let (items, tail) =
        state_after s t (apply_action-sub tab laws codecs formats gm s' is_sub ∙ done) in
      let old = last_of_IsTail tab codecs gm.gid s' xs p (x ∷ n ∷ []) r'.tail ∙ hn in
      (
        tail ∙ simp view_laws old,
        ap (λ (f : Jid → Outcome MemberItem). f x.id) items ∙ simp (view_laws, beq_refl),
      )

  -- ADD behind a record of the last member whose predecessor is gone.
  handle_member-add_on_stale :
      (s : S) (l : MemberItem) (fuel : ℕ) {e : Bytes}
      → gm.action ≡ add
      → last_at tab codecs gm.gid s ≡ ok l
      → view s l.prve ≡ err e
      → beq gm.id l.id ≡ false
      → beq gm.id l.prve ≡ false
      → beq l.id l.prve ≡ false
      → query_member tab codecs
          (suc (suc (suc fuel)))
          (handle_member tab codecs uuid gm s).1
          gm.gid
          to
          gm.id
        ≡ some (shown gm ∷ Option.map exported l.member ∷ [])
  unfolding query_member last_at
  handle_member-add_on_stale s l fuel {e} is_add tail gone ne_l ne_p ne_lp =
      let s' = logged tab laws codecs formats uuid gm s in
      let tail' = ap (decode codecs.item) (last-logged tab laws codecs formats uuid gm s) ∙ tail in
      let t = next_state tab laws codecs formats gm l s' in
      let added =
        apply_action-add tab laws codecs formats gm s' is_add
        ∙ add_member-next tab laws codecs formats gm s' l tail' in
      let items = (state_after s t added).0 ∙ items-next_state tab laws codecs formats gm s' l in
      let u = (handle_member tab codecs uuid gm s).1 in
      let at_gm : view u gm.id ≡ ok (exported_item (joining l.id gm)) =
        ap (λ (f : Jid → Outcome MemberItem). f gm.id) items ∙ rw (beq_refl gm.id) in
      let at_l : view u l.id ≡ ok (exported_item (record l { next = gm.id })) =
        ap (λ (f : Jid → Outcome MemberItem). f l.id) items ∙ rw (ne_l, beq_refl l.id) in
      let at_p : view u l.prve ≡ err e =
        ap (λ (f : Jid → Outcome MemberItem). f l.prve) items
        ∙ rw (ne_p, ne_lp)
            (ap (λ (f : Jid → Outcome MemberItem). f l.prve)
                (item_at-logged tab laws codecs formats uuid gm s)
              ∙ gone) in
      query_loop-step tab codecs gm.gid u (suc (suc fuel)) to [] gm.id
        (visit-to tab codecs gm.gid u gm.id at_gm)
      ∙ query_loop-step tab codecs gm.gid u (suc fuel) to (shown gm ∷ []) l.id
          (visit-to tab codecs gm.gid u l.id at_l)
      ∙ query_loop-stop tab codecs gm.gid u fuel to (shown gm ∷ Option.map exported l.member ∷ [])
          l.prve (visit-err tab codecs gm.gid u to l.prve at_p)

module _ {S : Type 0} (tab : Database S) (laws : DatabaseLaws tab) (codecs : GroupCodecs)
    (formats : StoredLaws codecs) (uuid uuid' : Bytes) (gm : GroupMember) (id : Jid)
    (name : Bytes) where
  abbrev pub joiner : GroupMember
  joiner = record { id = id; name = name; gid = gm.gid; action = add }

  -- SUB of the last member but one and then ADD of a new member: a query TO from the new member
  -- gives it and the member before it and stops there, however many members stand further up.
  pub sub_then_add_loses :
      (s : S) (xs : List GroupMember) (p x n : GroupMember) (fuel : ℕ)
      → gm.action ≡ sub
      → gm.id ≡ x.id
      → has_id (xs ++ p ∷ x ∷ n ∷ []) id ≡ false
      → IsRoster tab codecs gm.gid s (xs ++ p ∷ x ∷ n ∷ [])
      → let t = (handle_member tab codecs uuid gm s).1 in
        query_member tab codecs
          (suc (suc (suc fuel)))
          (handle_member tab codecs uuid' joiner t).1
          gm.gid
          to
          id
        ≡ some (shown joiner ∷ shown n ∷ [])
  sub_then_add_loses s xs p x n fuel is_sub same fresh r =
      let (tail, gone) =
        handle_member-sub_last_but_one tab laws codecs formats uuid gm s xs p x n is_sub same r in
      let (_, _, d) = Distinct-middle xs p (x ∷ n ∷ []) r.chain.distinct in
      let (_, x_out, _) = Distinct-middle xs x (n ∷ []) d in
      let out = has_id-append xs (p ∷ x ∷ n ∷ []) id in
      handle_member-add_on_stale tab laws codecs formats uuid' joiner
        (handle_member tab codecs uuid gm s).1 (linked x.id n []) fuel refl tail gone
        (ground (arith, beq_comm n.id id)) (ground (arith, beq_comm x.id id)) (ground arith)
