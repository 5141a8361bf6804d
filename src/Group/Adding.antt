-- ===== src/Group/Adding.antt =====
-- The case ADD of `handleMember` of mailbox_group.go.
use mathlib.Core.Path.{subst}
use mathlib.Core.List.{append_assoc}
use go_achat_node.Prelude.{
  ◌≡◌, ◌≢◌, ◌⊎◌, inl, inr, refl, sym, ap, ◌∙◌, false, some, List, [], ◌∷◌, ◌++◌, Bytes, beq,
  beq_refl, ok, err,
}
use go_achat_node.Ldb.{Database}
use go_achat_node.Ldb.Laws.{DatabaseLaws}
use go_achat_node.Types.{Jid}
use go_achat_node.Group.{
  GroupMember, MemberItem, GroupCodecs, StoredLaws, add, exported_item, member_last_key,
}
use go_achat_node.Group.Members.{add_member, apply_action, link_item, handle_member}
use go_achat_node.Group.Keys.{Slot, item, last}
use go_achat_node.Group.Decoding.{decode-eq-ok}
use go_achat_node.Group.Views.{item_at, last_at, put_item, put_encoded-item, view_laws}
use go_achat_node.Group.Chain.{View, update, has_id, last_id, linked, IsChain}
use go_achat_node.Group.Edits.{IsChain-first, IsChain-appended}
use go_achat_node.Group.Handling.{logged, handle_member-eq, IsRoster-logged, IsRoster-last_log}
use go_achat_node.Group.Roster.{end_item, IsTail-of_last, IsRoster, items-put_item, items-put_last}

-- The item of a member that joins behind `prve`.
abbrev pub joining : Jid → GroupMember → MemberItem
joining prve gm = record { id = gm.id; prve = prve; next = []; member = some gm }

-- A list is empty or has a last member.
abbrev pub HasEnd : List GroupMember → Type 0
HasEnd ms = (xs : List GroupMember) × (l : GroupMember) × (ms ≡ xs ++ l ∷ [])

pub end-cases : (ms : List GroupMember) → (ms ≡ []) ⊎ HasEnd ms
end-cases [] = inl refl
end-cases (m ∷ ms) = inr (go m ms)
  where
    go : (m : GroupMember) (ms : List GroupMember) → HasEnd (m ∷ ms)
    go m [] = ([], m, refl)
    go m (m' ∷ ms) =
        let (xs, l, e) = go m' ms in (m ∷ xs, l, ap (λ (r : List GroupMember). m ∷ r) e)

module _ {S : Type 0} (tab : Database S) (laws : DatabaseLaws tab) (codecs : GroupCodecs)
    (formats : StoredLaws codecs) (gm : GroupMember) where
  abbrev pub put : S → Slot → MemberItem → S
  put = put_item tab laws codecs formats gm.gid

  add_member-first :
      (s : S) {e : Bytes}
      → tab.get s (member_last_key gm.gid) ≡ err e
      → add_member tab codecs gm s
        ≡ (ok tt, put (put s (item gm.id) (joining [] gm)) last (joining [] gm))
  unfolding add_member link_item
  add_member-first s h = simp (
    h,
    put_encoded-item tab laws codecs formats gm.gid (item gm.id),
    put_encoded-item tab laws codecs formats gm.gid last,
  )

  pub add_member-next :
      (s : S) (l : MemberItem)
      → last_at tab codecs gm.gid s ≡ ok l
      → add_member tab codecs gm s ≡ (
        ok tt,
        put
            (put (put s (item l.id) (record l { next = gm.id })) (item gm.id) (joining l.id gm))
            last
            (joining l.id gm),
      )
  unfolding add_member link_item last_at
  add_member-next s l h =
      let (buf, got, value) = decode-eq-ok codecs.item (tab.get s (member_last_key gm.gid)) h in
      simp (
        got,
        value,
        put_encoded-item tab laws codecs formats gm.gid (item l.id),
        put_encoded-item tab laws codecs formats gm.gid (item gm.id),
        put_encoded-item tab laws codecs formats gm.gid last,
      )

  pub apply_action-add :
      (s : S) → gm.action ≡ add → apply_action tab codecs gm s ≡ add_member tab codecs gm s
  unfolding apply_action beq
  apply_action-add s h = rw h

  abbrev first_state : S → S
  first_state s = put (put s (item gm.id) (joining [] gm)) last (joining [] gm)

  abbrev pub next_state : MemberItem → S → S
  next_state l s =
      put (put (put s (item l.id) (record l { next = gm.id })) (item gm.id) (joining l.id gm)) last
        (joining l.id gm)

  abbrev pub view : S → View
  view = item_at tab codecs gm.gid

  items-first_state : (s : S) → view (first_state s) ≡ update gm.id (ok (linked [] gm [])) (view s)
  items-first_state s =
      items-put_last tab laws codecs formats gm.gid (put s (item gm.id) (joining [] gm))
        (joining [] gm)
      ∙ items-put_item tab laws codecs formats gm.gid s gm.id (joining [] gm)

  pub items-next_state :
      (s : S) (l : MemberItem)
      → view (next_state l s)
        ≡ update gm.id
            (ok (exported_item (joining l.id gm)))
            (update l.id (ok (exported_item (record l { next = gm.id }))) (view s))
  items-next_state s l =
      let s₁ = put s (item l.id) (record l { next = gm.id }) in
      items-put_last tab laws codecs formats gm.gid (put s₁ (item gm.id) (joining l.id gm))
        (joining l.id gm)
      ∙ items-put_item tab laws codecs formats gm.gid s₁ gm.id (joining l.id gm)
      ∙ ap (update gm.id (ok (exported_item (joining l.id gm))))
          (items-put_item tab laws codecs formats gm.gid s l.id (record l { next = gm.id }))

  add_member-IsRoster_first :
      (s : S)
      → gm.id ≢ []
      → IsRoster tab codecs gm.gid s []
      → (t : S) × (add_member tab codecs gm s ≡ (ok tt, t)) × IsRoster tab codecs gm.gid t (gm ∷ [])
  add_member-IsRoster_first s named r = (
    first_state s,
    add_member-first s (r.tail.1),
    record {
      chain =
          subst (λ v. IsChain v (gm ∷ [])) (sym (items-first_state s))
            (IsChain-first (view s) gm named r.chain);
      tail = simp (view_laws, beq_refl);
    },
  )

  add_member-IsRoster_next :
      (s : S) (xs : List GroupMember) (l : GroupMember)
      → gm.id ≢ []
      → has_id (xs ++ l ∷ []) gm.id ≡ false
      → IsRoster tab codecs gm.gid s (xs ++ l ∷ [])
      → (t : S) × (add_member tab codecs gm s ≡ (ok tt, t))
        × IsRoster tab codecs gm.gid t ((xs ++ l ∷ []) ++ gm ∷ [])
  add_member-IsRoster_next s xs l named fresh r =
      let end = linked (last_id [] xs) l [] in
      (
        next_state end s,
        add_member-next s end (end_item tab codecs gm.gid s xs l r),
        record {
          chain =
              subst (λ v. IsChain v ((xs ++ l ∷ []) ++ gm ∷ [])) (sym (items-next_state s end))
                (rw append_assoc (IsChain-appended (view s) xs l gm named fresh r.chain));
          tail =
              IsTail-of_last tab codecs gm.gid (next_state end s) (xs ++ l ∷ []) gm []
                (simp (view_laws, beq_refl));
        },
      )

  add_member-IsRoster :
      (s : S) (ms : List GroupMember)
      → gm.id ≢ []
      → has_id ms gm.id ≡ false
      → IsRoster tab codecs gm.gid s ms
      → (t : S) × (add_member tab codecs gm s ≡ (ok tt, t))
        × IsRoster tab codecs gm.gid t (ms ++ gm ∷ [])
  add_member-IsRoster s ms named fresh r = elim (end-cases ms) [
    | inl e ↦ rw e (add_member-IsRoster_first s named (rw e at r))
    | inr (xs, l, e) ↦ rw e (add_member-IsRoster_next s xs l named (rw e at fresh) (rw e at r))
  ]

  -- Where the store holds a list of members, ADD of a member that is not in it, under a non-empty id,
  -- succeeds, and the list has it at its end: the two-way links, the record of the last member and the absence of all other ids
  -- hold again.
  pub handle_member-add :
      (uuid : Bytes) (s : S) (ms : List GroupMember)
      → gm.action ≡ add
      → gm.id ≢ []
      → has_id ms gm.id ≡ false
      → IsRoster tab codecs gm.gid s ms
      → ((handle_member tab codecs uuid gm s).0 ≡ ok tt)
        × IsRoster tab codecs gm.gid (handle_member tab codecs uuid gm s).1 (ms ++ gm ∷ [])
  handle_member-add uuid s ms is_add named fresh r =
      let s' = logged tab laws codecs formats uuid gm s in
      let (t, added, r') =
        add_member-IsRoster s' ms named fresh
          (IsRoster-logged tab laws codecs formats uuid gm s ms r) in
      rw (handle_member-eq tab laws codecs formats uuid gm s, apply_action-add s' is_add, added)
        (refl, IsRoster-last_log tab laws codecs formats uuid gm t _ (ms ++ gm ∷ []) r')
