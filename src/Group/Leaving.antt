-- ===== src/Group/Leaving.antt =====
-- The case SUB of `handleMember` of mailbox_group.go: what it writes and deletes.
use mathlib.Core.Path.{fun_ext}
use go_achat_node.Prelude.{◌≡◌, List, [], ◌∷◌, ◌++◌, Bytes, beq, ok, err}
use go_achat_node.Ldb.{Database}
use go_achat_node.Ldb.Laws.{DatabaseLaws}
use go_achat_node.Types.{Jid}
use go_achat_node.Group.{GroupMember, MemberItem, GroupCodecs, StoredLaws, sub, exported_item}
use go_achat_node.Group.Members.{sub_member, apply_action, unlink_next}
use go_achat_node.Group.Keys.{Slot, item, last}
use go_achat_node.Group.Views.{item_at, put_item, drop_item, put_encoded-item, view_laws}
use go_achat_node.Group.Chain.{View, update, last_id, head_id, linked, Links-right, IsChain}

module _ {S : Type 0} (tab : Database S) (laws : DatabaseLaws tab) (codecs : GroupCodecs)
    (formats : StoredLaws codecs) (gm : GroupMember) where
  abbrev pub view : S → View
  view = item_at tab codecs gm.gid

  abbrev pub put : S → Slot → MemberItem → S
  put = put_item tab laws codecs formats gm.gid

  abbrev pub drop : S → Jid → S
  drop = drop_item tab laws codecs formats gm.gid

  -- The store after a member between two others has left, and after the last one has.
  abbrev pub bridged_state : S → MemberItem → MemberItem → MemberItem → S
  bridged_state s p x n =
      drop
        (put (put s (item n.id) (record n { prve = p.id })) (item p.id) (record p { next = n.id }))
        x.id

  abbrev pub cut_state : S → MemberItem → MemberItem → S
  cut_state s p x =
      drop (put (put s last (record p { next = [] })) (item p.id) (record p { next = [] })) x.id

  pub sub_member-bridged :
      (s : S) (p x n : MemberItem)
      → view s gm.id ≡ ok x
      → view s x.prve ≡ ok p
      → view s x.next ≡ ok n
      → sub_member tab codecs gm s ≡ (ok tt, bridged_state s p x n)
  unfolding sub_member unlink_next drop_item
  sub_member-bridged s p x n hx hp hn = simp (
    hx,
    hp,
    hn,
    put_encoded-item tab laws codecs formats gm.gid (item n.id),
    put_encoded-item tab laws codecs formats gm.gid (item p.id),
    DatabaseLaws.delete_eq laws,
  )

  pub sub_member-cut :
      (s : S) (p x : MemberItem) {e : Bytes}
      → view s gm.id ≡ ok x
      → view s x.prve ≡ ok p
      → view s x.next ≡ err e
      → sub_member tab codecs gm s ≡ (ok tt, cut_state s p x)
  unfolding sub_member unlink_next drop_item
  sub_member-cut s p x hx hp hn = simp (
    hx,
    hp,
    hn,
    put_encoded-item tab laws codecs formats gm.gid last,
    put_encoded-item tab laws codecs formats gm.gid (item p.id),
    DatabaseLaws.delete_eq laws,
  )

  pub items-bridged_state :
      (s : S) (p x n : MemberItem)
      → view (bridged_state s p x n)
        ≡ update x.id (err laws.not_found) (
            update p.id
              (ok (exported_item (record p { next = n.id })))
              (update n.id (ok (exported_item (record n { prve = p.id }))) (view s)))
  items-bridged_state s p x n = fun_ext λ id. simp view_laws

  pub items-cut_state :
      (s : S) (p x : MemberItem)
      → view (cut_state s p x)
        ≡ update x.id
            (err laws.not_found)
            (update p.id (ok (exported_item (record p { next = [] }))) (view s))
  items-cut_state s p x = fun_ext λ id. simp view_laws

  pub apply_action-sub :
      (s : S) → gm.action ≡ sub → apply_action tab codecs gm s ≡ sub_member tab codecs gm s
  unfolding apply_action beq
  apply_action-sub s h = rw h

  -- The items around a member that has one before it.
  pub before_item :
      (s : S) (xs : List GroupMember) (p x : GroupMember) (ys : List GroupMember)
      → IsChain (view s) (xs ++ p ∷ x ∷ ys)
      → (view s p.id ≡ ok (linked (last_id [] xs) p x.id))
        × (view s x.id ≡ ok (linked p.id x (head_id ys [])))
  before_item s xs p x ys c =
      let k = Links-right (view s) [] xs (p ∷ x ∷ ys) [] c.links in (k.0, k.1.0)

  pub next_item :
      (s : S) (xs : List GroupMember) (p x n : GroupMember) (ys : List GroupMember)
      → IsChain (view s) (xs ++ p ∷ x ∷ n ∷ ys)
      → view s n.id ≡ ok (linked x.id n (head_id ys []))
  next_item s xs p x n ys c = (Links-right (view s) [] xs (p ∷ x ∷ n ∷ ys) [] c.links).1.1.0
