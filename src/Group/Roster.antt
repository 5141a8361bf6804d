-- ===== src/Group/Roster.antt =====
-- What it means that the store holds a list of members, and what the writes do to the items.
use mathlib.Core.Path.{fun_ext, subst}
use go_achat_node.Prelude.{◌≡◌, sym, ap, ◌∙◌, List, [], ◌∷◌, ◌++◌, refl, Bytes, ok, err}
use go_achat_node.Ldb.{Database}
use go_achat_node.Ldb.Laws.{DatabaseLaws}
use go_achat_node.Types.{Jid, Gid}
use go_achat_node.Group.{
  GroupMember, MemberItem, GroupCodecs, StoredLaws, exported_item, member_last_key,
}
use go_achat_node.Group.Members.{decode}
use go_achat_node.Group.Members.{decode}
use mathlib.Core.Path.{subst}
use go_achat_node.Group.Keys.{item, last}
use go_achat_node.Group.Views.{item_at, last_at, put_item, drop_item, view_laws}
use go_achat_node.Group.Chain.{View, update, last_id, linked, Links-right, IsChain}

-- The record of the last member, beside the list itself.
abbrev pub IsTail : {S : Type 0} → Database S → GroupCodecs → Gid → S → List GroupMember → Type 0
IsTail tab codecs gid s [] = (e : Bytes) × (tab.get s (member_last_key gid) ≡ err e)
IsTail tab codecs gid s (m ∷ ms) =
    last_at tab codecs gid s ≡ item_at tab codecs gid s (last_id m.id ms)

-- The store holds the members `ms` of the group, in order, and its record of the last one is true.
pub record IsRoster {S : Type 0} (tab : Database S) (codecs : GroupCodecs) (gid : Gid) (s : S)
    (ms : List GroupMember) : Type 0 where
  pub chain : IsChain (item_at tab codecs gid s) ms
  pub tail : IsTail tab codecs gid s ms

module _ {S : Type 0} (tab : Database S) (laws : DatabaseLaws tab) (codecs : GroupCodecs)
    (formats : StoredLaws codecs) (gid : Gid) where
  -- The items of the group, as the links see them, after each write.
  pub items-put_item :
      (s : S) (x : Jid) (i : MemberItem)
      → item_at tab codecs gid (put_item tab laws codecs formats gid s (item x) i)
        ≡ update x (ok (exported_item i)) (item_at tab codecs gid s)
  items-put_item s x i = fun_ext λ id. simp view_laws

  pub items-put_last :
      (s : S) (i : MemberItem)
      → item_at tab codecs gid (put_item tab laws codecs formats gid s last i)
        ≡ item_at tab codecs gid s
  items-put_last s i = fun_ext λ id. simp view_laws

  pub items-drop_item :
      (s : S) (x : Jid)
      → item_at tab codecs gid (drop_item tab laws codecs formats gid s x)
        ≡ update x (err laws.not_found) (item_at tab codecs gid s)
  items-drop_item s x = fun_ext λ id. simp view_laws

pub ruleset item_laws = (items-put_item, items-put_last, items-drop_item)

pub last_id-append :
    (p : Jid) (xs : List GroupMember) (y : GroupMember) (ys : List GroupMember)
    → last_id p (xs ++ y ∷ ys) ≡ last_id y.id ys
last_id-append p [] y ys = refl
last_id-append p (m ∷ xs) y ys = last_id-append m.id xs y ys

module _ {S : Type 0} (tab : Database S) (codecs : GroupCodecs) (gid : Gid) (s : S) where
  -- The record of the last member is that of the member at the end.
  pub last_of_IsTail :
      (xs : List GroupMember) (y : GroupMember) (ys : List GroupMember)
      → IsTail tab codecs gid s (xs ++ y ∷ ys)
      → last_at tab codecs gid s ≡ item_at tab codecs gid s (last_id y.id ys)
  last_of_IsTail [] y ys h = h
  last_of_IsTail (m ∷ xs) y ys h =
      h ∙ ap (λ (x : Jid). item_at tab codecs gid s x) (last_id-append m.id xs y ys)

  pub IsTail-of_last :
      (xs : List GroupMember) (y : GroupMember) (ys : List GroupMember)
      → last_at tab codecs gid s ≡ item_at tab codecs gid s (last_id y.id ys)
      → IsTail tab codecs gid s (xs ++ y ∷ ys)
  IsTail-of_last [] y ys h = h
  IsTail-of_last (m ∷ xs) y ys h =
      h ∙ ap (λ (x : Jid). item_at tab codecs gid s x) (sym (last_id-append m.id xs y ys))

  -- The item of the member at the end.
  pub end_item :
      (xs : List GroupMember) (l : GroupMember)
      → IsRoster tab codecs gid s (xs ++ l ∷ [])
      → last_at tab codecs gid s ≡ ok (linked (last_id [] xs) l [])
  end_item xs l r =
      last_of_IsTail xs l [] r.tail
      ∙ (Links-right (item_at tab codecs gid s) [] xs (l ∷ []) [] r.chain.links).0

-- What shows the same items and the same record of the last member holds the same list.
module _ {S : Type 0} (tab : Database S) (codecs : GroupCodecs) (gid : Gid) (s t : S) where
  pub IsTail-of_same :
      (ms : List GroupMember)
      → item_at tab codecs gid t ≡ item_at tab codecs gid s
      → tab.get t (member_last_key gid) ≡ tab.get s (member_last_key gid)
      → IsTail tab codecs gid s ms
      → IsTail tab codecs gid t ms
  unfolding last_at
  IsTail-of_same [] i l h = (h.0, l ∙ h.1)
  IsTail-of_same (m ∷ ms) i l h =
      ap (decode codecs.item) l ∙ h ∙ sym (ap (λ (f : View). f (last_id m.id ms)) i)

  pub IsRoster-of_same :
      (ms : List GroupMember)
      → item_at tab codecs gid t ≡ item_at tab codecs gid s
      → tab.get t (member_last_key gid) ≡ tab.get s (member_last_key gid)
      → IsRoster tab codecs gid s ms
      → IsRoster tab codecs gid t ms
  IsRoster-of_same ms i l r = record {
    chain = subst (λ f. IsChain f ms) (sym i) r.chain;
    tail = IsTail-of_same ms i l r.tail;
  }
