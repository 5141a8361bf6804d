-- ===== src/Group/Removing.antt =====
-- The case SUB of `handleMember` of mailbox_group.go, for a member that has one before it: the list
-- that is left.
use mathlib.Core.Path.{subst}
use go_achat_node.Prelude.{
  ◌≡◌, ◌≢◌, refl, sym, true, false, List, [], ◌∷◌, ◌++◌, Bytes, beq, beq_iff, beq_refl, ok, arith,
  length,
}
use go_achat_node.Ldb.{Database}
use go_achat_node.Ldb.Laws.{DatabaseLaws}
use go_achat_node.Types.{Jid}
use go_achat_node.Group.{GroupMember, GroupCodecs, StoredLaws, sub}
use go_achat_node.Group.Members.{sub_member, handle_member}
use go_achat_node.Group.Views.{item_at, view_laws}
use go_achat_node.Group.Chain.{View, has_id, last_id, head_id, linked, IsChain, Distinct-middle}
use go_achat_node.Group.Cuts.{IsChain-bridged, IsChain-cut}
use go_achat_node.Group.Handling.{
  logged, handle_member-eq, IsRoster-logged, IsTail-last_log, item_at-last_log,
}
use go_achat_node.Group.Roster.{IsTail, IsRoster, IsTail-of_last, last_of_IsTail}
use go_achat_node.Group.Leaving.{
  bridged_state, cut_state, sub_member-bridged, sub_member-cut, items-bridged_state,
  items-cut_state, apply_action-sub, before_item, next_item,
}

module _ {S : Type 0} (tab : Database S) (laws : DatabaseLaws tab) (codecs : GroupCodecs)
    (formats : StoredLaws codecs) (gm : GroupMember) where
  abbrev view : S → View
  view = item_at tab codecs gm.gid

  -- What SUB leaves: the list without the member, and a true record of the last member unless the
  -- removed one was the last but one.
  abbrev Left : S → List GroupMember → GroupMember → List GroupMember → Type 0
  Left t xs p ys =
      IsChain (view t) (xs ++ p ∷ ys) × (length ys ≢ 1 → IsTail tab codecs gm.gid t (xs ++ p ∷ ys))

  sub_member-last :
      (s : S) (xs : List GroupMember) (p x : GroupMember)
      → gm.id ≡ x.id
      → IsRoster tab codecs gm.gid s (xs ++ p ∷ x ∷ [])
      → (t : S) × (sub_member tab codecs gm s ≡ (ok tt, t)) × Left t xs p []
  sub_member-last s xs p x same r =
      let (hp, hx) = before_item tab laws codecs formats gm s xs p x [] r.chain in
      let ip = linked (last_id [] xs) p x.id in
      let ix = linked p.id x [] in
      let (_, apart, _) = Distinct-middle xs p (x ∷ []) r.chain.distinct in
      let ne : beq x.id p.id ≡ false = ground arith in
      (
        cut_state tab laws codecs formats gm s ip ix,
        sub_member-cut tab laws codecs formats gm s ip ix (rw same hx) hp
            (r.chain.absent [] r.chain.named).1,
        (
          subst (λ v. IsChain v (xs ++ p ∷ []))
              (sym (items-cut_state tab laws codecs formats gm s ip ix))
              (IsChain-cut (view s) xs p x laws.not_found r.chain),
          λ _.
              IsTail-of_last tab codecs gm.gid (cut_state tab laws codecs formats gm s ip ix) xs p
                [] (simp (view_laws, ne, beq_refl)),
        ),
      )

  has_id-last_id :
      (m : GroupMember) (ms : List GroupMember) → has_id (m ∷ ms) (last_id m.id ms) ≡ true
  has_id-last_id m [] = ground (arith, beq_refl m.id)
  has_id-last_id m (m' ∷ ms) = ground (arith, has_id-last_id m' ms)

  ne_of_has_id :
      (ms : List GroupMember) (a b : Jid)
      → has_id ms a ≡ true
      → has_id ms b ≡ false
      → beq b a ≡ false
  ne_of_has_id ms a b h k = ground (arith, beq_iff b a)

  IsTail-bridged_state :
      (s : S) (xs : List GroupMember) (p x n m : GroupMember) (ys : List GroupMember)
      → IsRoster tab codecs gm.gid s (xs ++ p ∷ x ∷ n ∷ m ∷ ys)
      → (pp nn : Jid)
      → IsTail tab codecs gm.gid
          (bridged_state tab laws codecs formats gm s
            (linked pp p x.id)
            (linked p.id x n.id)
            (linked x.id n nn))
          (xs ++ p ∷ n ∷ m ∷ ys)
  IsTail-bridged_state s xs p x n m ys r pp nn =
      let (_, p_out, d) = Distinct-middle xs p (x ∷ n ∷ m ∷ ys) r.chain.distinct in
      let (_, x_out, d') = Distinct-middle xs x (n ∷ m ∷ ys) d in
      let (_, n_out, _) = Distinct-middle xs n (m ∷ ys) d' in
      let end = last_id m.id ys in
      let here = has_id-last_id m ys in
      let apart_p = ne_of_has_id (m ∷ ys) end p.id here (ground arith) in
      let apart_x = ne_of_has_id (m ∷ ys) end x.id here (ground arith) in
      let apart_n = ne_of_has_id (m ∷ ys) end n.id here n_out in
      IsTail-of_last tab codecs gm.gid _ xs p (n ∷ m ∷ ys) (
        simp (view_laws, apart_p, apart_x, apart_n)
          (last_of_IsTail tab codecs gm.gid s xs p (x ∷ n ∷ m ∷ ys) r.tail))

  sub_member-middle :
      (s : S) (xs : List GroupMember) (p x n : GroupMember) (ys : List GroupMember)
      → gm.id ≡ x.id
      → IsRoster tab codecs gm.gid s (xs ++ p ∷ x ∷ n ∷ ys)
      → (t : S) × (sub_member tab codecs gm s ≡ (ok tt, t)) × Left t xs p (n ∷ ys)
  sub_member-middle s xs p x n ys same r =
      let (hp, hx) = before_item tab laws codecs formats gm s xs p x (n ∷ ys) r.chain in
      let hn = next_item tab laws codecs formats gm s xs p x n ys r.chain in
      let ip = linked (last_id [] xs) p x.id in
      let ix = linked p.id x n.id in
      let it = linked x.id n (head_id ys []) in
      (
        bridged_state tab laws codecs formats gm s ip ix it,
        sub_member-bridged tab laws codecs formats gm s ip ix it (rw same hx) hp hn,
        (
          subst (λ v. IsChain v (xs ++ p ∷ n ∷ ys))
              (sym (items-bridged_state tab laws codecs formats gm s ip ix it))
              (IsChain-bridged (view s) xs p x n ys laws.not_found r.chain),
          tail_of ys r,
        ),
      )
    where
      tail_of :
          (ys : List GroupMember)
          → IsRoster tab codecs gm.gid s (xs ++ p ∷ x ∷ n ∷ ys)
          → length (n ∷ ys) ≢ 1
          → IsTail tab codecs gm.gid
              (bridged_state tab laws codecs formats gm s
                (linked (last_id [] xs) p x.id)
                (linked p.id x n.id)
                (linked x.id n (head_id ys [])))
              (xs ++ p ∷ n ∷ ys)
      tail_of [] r one = absurd (one refl)
      tail_of (m ∷ ys) r one = IsTail-bridged_state s xs p x n m ys r (last_id [] xs) m.id

  sub_member-Left :
      (s : S) (xs : List GroupMember) (p x : GroupMember) (ys : List GroupMember)
      → gm.id ≡ x.id
      → IsRoster tab codecs gm.gid s (xs ++ p ∷ x ∷ ys)
      → (t : S) × (sub_member tab codecs gm s ≡ (ok tt, t)) × Left t xs p ys
  sub_member-Left s xs p x [] same r = sub_member-last s xs p x same r
  sub_member-Left s xs p x (n ∷ ys) same r = sub_member-middle s xs p x n ys same r

  handle_member-Left :
      (uuid : Bytes) (s : S) (xs : List GroupMember) (p x : GroupMember) (ys : List GroupMember)
      → gm.action ≡ sub
      → gm.id ≡ x.id
      → IsRoster tab codecs gm.gid s (xs ++ p ∷ x ∷ ys)
      → ((handle_member tab codecs uuid gm s).0 ≡ ok tt)
        × IsChain (view (handle_member tab codecs uuid gm s).1) (xs ++ p ∷ ys)
        × (length ys ≢ 1
            → IsTail tab codecs gm.gid (handle_member tab codecs uuid gm s).1 (xs ++ p ∷ ys))
  handle_member-Left uuid s xs p x ys is_sub same r =
      let s' = logged tab laws codecs formats uuid gm s in
      let (t, done, left) =
        sub_member-Left s' xs p x ys same
          (IsRoster-logged tab laws codecs formats uuid gm s (xs ++ p ∷ x ∷ ys) r) in
      rw
        (
          handle_member-eq tab laws codecs formats uuid gm s,
          apply_action-sub tab laws codecs formats gm s' is_sub,
          done,
        )
        (
          refl,
          subst (λ v. IsChain v (xs ++ p ∷ ys))
              (sym (item_at-last_log tab laws codecs formats uuid gm t _)) left.0,
          λ many. IsTail-last_log tab laws codecs formats uuid gm t _ (xs ++ p ∷ ys) (left.1 many),
        )

  -- SUB of a member that has one before it, and behind it none or more than one, succeeds, and the
  -- store holds the old list without it: the two-way links, the record of the last member and the
  -- absence of all other ids hold again.
  pub handle_member-sub :
      (uuid : Bytes) (s : S) (xs : List GroupMember) (p x : GroupMember) (ys : List GroupMember)
      → gm.action ≡ sub
      → gm.id ≡ x.id
      → length ys ≢ 1
      → IsRoster tab codecs gm.gid s (xs ++ p ∷ x ∷ ys)
      → ((handle_member tab codecs uuid gm s).0 ≡ ok tt)
        × IsRoster tab codecs gm.gid (handle_member tab codecs uuid gm s).1 (xs ++ p ∷ ys)
  handle_member-sub uuid s xs p x ys is_sub same many r =
      let (done, chain, tail) = handle_member-Left uuid s xs p x ys is_sub same r in
      (done, record { chain = chain; tail = tail many })

  -- SUB of a member that has one before it succeeds however many stand behind it, and the links are
  -- those of the old list without it.
  pub handle_member-sub-IsChain :
      (uuid : Bytes) (s : S) (xs : List GroupMember) (p x : GroupMember) (ys : List GroupMember)
      → gm.action ≡ sub
      → gm.id ≡ x.id
      → IsRoster tab codecs gm.gid s (xs ++ p ∷ x ∷ ys)
      → ((handle_member tab codecs uuid gm s).0 ≡ ok tt)
        × IsChain (view (handle_member tab codecs uuid gm s).1) (xs ++ p ∷ ys)
  handle_member-sub-IsChain uuid s xs p x ys is_sub same r =
      let (done, chain, _) = handle_member-Left uuid s xs p x ys is_sub same r in (done, chain)
