-- ===== src/Group/Edits.antt =====
-- How the writes of `handleMember` change the list where one member comes in at its end.
use mathlib.Core.List.{append_assoc, append-nil}
use mathlib.Core.Path.{subst}
use go_achat_node.Prelude.{
  ◌≡◌, ◌≢◌, refl, false, List, [], ◌∷◌, ◌++◌, Bytes, beq, beq_iff, beq_refl, Outcome, ok, err,
  arith,
}
use go_achat_node.Types.{Jid}
use go_achat_node.Group.{GroupMember, MemberItem}
use go_achat_node.Group.Chain.{
  View, update, has_id, Distinct, last_id, linked, Links, IsChain, beq_comm, has_id-append,
  Links-update, Links-append, Links-left, Distinct-middle, Distinct-insert,
}

pub update_self : (x : Jid) (v : Outcome MemberItem) (f : View) → update x v f x ≡ v
update_self x v f = rw (beq_refl x)

-- ids outside a changed view stay outside.
pub absent-update :
    (f : View) (x id : Jid) (v : Outcome MemberItem)
    → beq x id ≡ false
    → ((e : Bytes) × (f id ≡ err e))
    → (e : Bytes) × (update x v f id ≡ err e)
absent-update f x id v h a = (a.0, ground arith)

-- The first member of a group.
pub IsChain-first :
    (f : View) (m : GroupMember)
    → m.id ≢ []
    → IsChain f []
    → IsChain (update m.id (ok (linked [] m [])) f) (m ∷ [])
IsChain-first f m h c = record {
  links = (update_self m.id (ok (linked [] m [])) f, tt);
  distinct = (refl, tt);
  named = ground (arith, beq_iff m.id []);
  absent = λ id out. absent-update f m.id id _ (ground arith) (c.absent id refl);
}

Distinct-last :
    (xs : List GroupMember) (m : GroupMember)
    → has_id xs m.id ≡ false
    → Distinct xs
    → Distinct (xs ++ m ∷ [])
Distinct-last xs m h d = Distinct-insert xs m [] (rw append-nil h) (rw append-nil d)

-- A member behind the last one, which is linked to it.
module _ (f : View) (ms : List GroupMember) (l m : GroupMember) where
  abbrev pub appended : View
  appended =
      update m.id (ok (linked l.id m [])) (update l.id (ok (linked (last_id [] ms) l m.id)) f)

  appended-Links :
      beq m.id l.id ≡ false
      → has_id ms l.id ≡ false
      → has_id ms m.id ≡ false
      → Links f [] (ms ++ l ∷ []) []
      → Links appended [] (ms ++ l ∷ m ∷ []) []
  appended-Links ne hl hm k =
      let front = Links-left f [] ms (l ∷ []) [] k in
      Links-append appended [] ms (l ∷ m ∷ []) []
        (Links-update _ m.id _ [] ms l.id hm (Links-update f l.id _ [] ms l.id hl front))
        (ground (arith, beq_refl l.id), (ground (arith, beq_refl m.id), tt))

  pub IsChain-appended :
      m.id ≢ []
      → has_id (ms ++ l ∷ []) m.id ≡ false
      → IsChain f (ms ++ l ∷ [])
      → IsChain appended (ms ++ l ∷ m ∷ [])
  IsChain-appended named fresh c =
      let (hl, _, _) = Distinct-middle ms l [] c.distinct in
      let apart = has_id-append ms (l ∷ []) m.id in
      record {
        links = appended-Links (ground (arith, beq_comm m.id l.id)) hl (ground arith) c.links;
        distinct =
            subst Distinct (append_assoc ms (l ∷ []) (m ∷ [])) (Distinct-last _ m fresh c.distinct);
        named = ground (
          arith,
          has_id-append ms (l ∷ m ∷ []) [],
          has_id-append ms (l ∷ []) [],
          c.named,
          beq_iff m.id [],
        );
        absent = λ id out.
            let apart_id = has_id-append ms (l ∷ m ∷ []) id in
            let apart_old = has_id-append ms (l ∷ []) id in
            absent-update (update l.id (ok (linked (last_id [] ms) l m.id)) f) m.id id
              (ok (linked l.id m [])) (ground arith)
              (absent-update f l.id id (ok (linked (last_id [] ms) l m.id)) (ground arith)
                (c.absent id (ground arith)));
      }
