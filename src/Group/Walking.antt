-- ===== src/Group/Walking.antt =====
-- `queryMember` of mailbox_group.go on a list of members, in both directions.
use mathlib.Core.List.{reverse, append_assoc, append-nil, map-append, reverse-append}
use go_achat_node.Prelude.{
  ℕ, zero, suc, ◌<◌, ◌≡◌, refl, sym, ap, ◌∙◌, Option, none, some, inl, inr, List, [], ◌∷◌, ◌++◌,
  map, Bytes, beq, length, length-append, ok, err, arith,
}
use go_achat_node.Ldb.{Database}
use go_achat_node.Types.{Jid, Gid}
use go_achat_node.Group.{GroupMember, MemberItem, GroupCodecs, from, to, exported}
use go_achat_node.Group.Members.{visit, query_loop, query_member}
use go_achat_node.Group.Views.{item_at}
use go_achat_node.Group.Chain.{head_id, last_id, Links, Links-left, Links-right, IsChain}
use go_achat_node.Group.Roster.{last_id-append}
use go_achat_node.Group.Adding.{end-cases}

-- A member as a query returns it: through a pointer, and without the field that is not exported.
abbrev pub shown : GroupMember → Option GroupMember
shown m = some (exported m)

reversed_last :
    (gml : List (Option GroupMember)) (xs : List GroupMember) (m : GroupMember)
    → (gml ++ shown m ∷ []) ++ reverse (map shown xs) ≡ gml ++ reverse (map shown (xs ++ m ∷ []))
reversed_last gml xs m =
    simp (map-append, append_assoc)
      (ap (λ (r : List (Option GroupMember)). gml ++ r)
        (sym (reverse-append (map shown xs) (shown m ∷ []))))

module _ {S : Type 0} (tab : Database S) (codecs : GroupCodecs) (gid : Gid) (s : S) where
  pub visit-from :
      (id : Jid) {i : MemberItem}
      → item_at tab codecs gid s id ≡ ok i
      → visit tab codecs s gid from id ≡ ok (i.member, i.next)
  unfolding visit beq
  visit-from id h = rw (h, visit)

  pub visit-to :
      (id : Jid) {i : MemberItem}
      → item_at tab codecs gid s id ≡ ok i
      → visit tab codecs s gid to id ≡ ok (i.member, i.prve)
  unfolding visit beq
  visit-to id h = rw (h, visit)

  pub visit-err :
      (action : Bytes) (id : Jid) {e : Bytes}
      → item_at tab codecs gid s id ≡ err e
      → visit tab codecs s gid action id ≡ err e
  unfolding visit
  visit-err action id h = rw (h, visit)

  -- One round of the loop.
  pub query_loop-step :
      (fuel : ℕ) (action : Bytes) (gml : List (Option GroupMember)) (id : Jid)
      {m : Option GroupMember} {nid : Jid}
      → visit tab codecs s gid action id ≡ ok (m, nid)
      → query_loop tab codecs (suc fuel) s gid action gml id
        ≡ query_loop tab codecs fuel s gid action (gml ++ m ∷ []) nid
  unfolding query_loop
  query_loop-step fuel action gml id h = rw (h, query_loop)

  pub query_loop-stop :
      (fuel : ℕ) (action : Bytes) (gml : List (Option GroupMember)) (id : Jid) {e : Bytes}
      → visit tab codecs s gid action id ≡ err e
      → query_loop tab codecs (suc fuel) s gid action gml id ≡ some gml
  unfolding query_loop
  query_loop-stop fuel action gml id h = rw (h, query_loop)

  walk_from :
      (fuel : ℕ) (gml : List (Option GroupMember)) (p : Jid) (ms : List GroupMember) {e : Bytes}
      → length ms < fuel
      → item_at tab codecs gid s [] ≡ err e
      → Links (item_at tab codecs gid s) p ms []
      → query_loop tab codecs fuel s gid from gml (head_id ms []) ≡ some (gml ++ map shown ms)
  walk_from zero gml p ms h none_at l = absurd (omega arith)
  walk_from (suc fuel) gml p [] h none_at l =
      query_loop-stop fuel from gml [] (visit-err from [] none_at) ∙ ap some (sym (append-nil gml))
  walk_from (suc fuel) gml p (m ∷ ms) h none_at l =
      query_loop-step fuel from gml m.id (visit-from m.id l.0)
      ∙ walk_from fuel (gml ++ shown m ∷ []) m.id ms (omega arith) none_at l.1
      ∙ ap some (append_assoc gml (shown m ∷ []) (map shown ms))

  walk_to :
      (fuel : ℕ) (gml : List (Option GroupMember)) (ms : List GroupMember) (n : Jid) {e : Bytes}
      → length ms < fuel
      → item_at tab codecs gid s [] ≡ err e
      → Links (item_at tab codecs gid s) [] ms n
      → query_loop tab codecs fuel s gid to gml (last_id [] ms)
        ≡ some (gml ++ reverse (map shown ms))
  walk_to zero gml ms n h none_at l = absurd (omega arith)
  walk_to (suc fuel) gml ms n h none_at l = elim (end-cases ms) [
    | inl e ↦
        rw e (
          query_loop-stop fuel to gml [] (visit-err to [] none_at) ∙ ap some (sym (append-nil gml)))
    | inr (xs, m, e) ↦
        let l' = rw e at l in
        let item = (Links-right (item_at tab codecs gid s) [] xs (m ∷ []) n l').0 in
        let before = Links-left (item_at tab codecs gid s) [] xs (m ∷ []) n l' in
        rw e (
          ap (query_loop tab codecs (suc fuel) s gid to gml) (last_id-append [] xs m [])
          ∙ query_loop-step fuel to gml m.id (visit-to m.id item)
          ∙ walk_to fuel (gml ++ shown m ∷ []) xs m.id
              (omega (arith, ap length e, length-append {0} xs (m ∷ []))) none_at before
          ∙ ap some (reversed_last gml xs m))
  ]

  -- From the first member on, FROM gives all members in order, and from the last one back, TO gives
  -- them in reverse; fuel beyond the number of members is enough for both.
  pub query_member_lem :
      (fuel : ℕ) (ms : List GroupMember)
      → length ms < fuel
      → IsChain (item_at tab codecs gid s) ms
      → (query_member tab codecs fuel s gid from (head_id ms []) ≡ some (map shown ms))
        × (query_member tab codecs fuel s gid to (last_id [] ms) ≡ some (reverse (map shown ms)))
  unfolding query_member
  query_member_lem fuel ms h c =
      let none_at = (c.absent [] c.named).1 in
      (walk_from fuel [] [] ms h none_at c.links, walk_to fuel [] ms [] h none_at c.links)

  -- An item that is linked back to itself keeps TO going for ever: no fuel is enough.
  pub query_to_loops :
      (fuel : ℕ) (gml : List (Option GroupMember)) (id : Jid) {i : MemberItem}
      → item_at tab codecs gid s id ≡ ok i
      → i.prve ≡ id
      → query_loop tab codecs fuel s gid to gml id ≡ none
  unfolding query_loop
  query_to_loops zero gml id h p = refl
  query_to_loops (suc fuel) gml id {i} h p =
      query_loop-step fuel to gml id (visit-to id h)
      ∙ ap (query_loop tab codecs fuel s gid to (gml ++ i.member ∷ [])) p
      ∙ query_to_loops fuel (gml ++ i.member ∷ []) id h p
