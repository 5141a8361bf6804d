-- ===== src/Group/Recording.antt =====
-- `handleMember` of mailbox_group.go records a change that succeeds, and no other.
use mathlib.Core.Path.{subst}
use go_achat_node.Prelude.{
  ◌≡◌, refl, sym, ap, ◌∙◌, false, List, [], ◌∷◌, Bytes, beq_refl, Outcome, ok, err, panic,
}
use go_achat_node.Ldb.{Database}
use go_achat_node.Ldb.Laws.{DatabaseLaws}
use go_achat_node.Group.{GroupMember, MemberLog, GroupCodecs, StoredLaws, member_last_log_key}
use go_achat_node.Group.Members.{apply_action, handle_member}
use go_achat_node.Group.Keys.{log, last_log}
use go_achat_node.Group.Views.{log_at, last_log_at, put_log, view_laws}
use go_achat_node.Group.Decoding.{decode-eq-ok}
use go_achat_node.Group.Handling.{
  linked_entry, link_back, logged, finish, handle_member-eq, last_log-logged,
}
use go_achat_node.Group.History.{
  Change, change_of, is_logged, entry_of, history_after, HasEntries, HasLast, IsHistory,
  HasEntries-put_log, HasEntries-put_last_log, HasLast-of_same, Unmoved, apply_action-Unmoved,
}

module _ {S : Type 0} (tab : Database S) (laws : DatabaseLaws tab) (codecs : GroupCodecs)
    (formats : StoredLaws codecs) (gm : GroupMember) (uuid : Bytes) where
  abbrev entry : S → MemberLog
  entry s = linked_entry tab laws codecs formats uuid gm (tab.get s (member_last_log_key gm.gid))

  linked : S → S
  linked s = link_back tab laws codecs formats uuid gm (tab.get s (member_last_log_key gm.gid)) s

  -- The new entry is linked back to the last change, and that one's entry forward to it.
  linked-history :
      (s : S) (cs : List Change)
      → IsHistory tab codecs gm.gid s cs
      → (entry s ≡ entry_of (change_of uuid gm) cs []) × HasEntries tab codecs gm.gid (linked s) cs
  unfolding linked last_log_at
  linked-history s [] (h, (e, none_yet)) = rw none_yet (refl, tt)
  linked-history s (c ∷ cs) ((_, once, h), (next, end)) =
      let (buf, got, decoded) =
        decode-eq-ok codecs.log (tab.get s (member_last_log_key gm.gid)) end in
      let t = put_log tab laws codecs formats gm.gid s (log c.id) (entry_of c cs uuid) in
      let state : linked s ≡ t = rw got (rw decoded refl) in
      (
        rw got (rw decoded refl),
        subst (λ t. HasEntries tab codecs gm.gid t (c ∷ cs)) (sym state)
            (
              (uuid, simp (view_laws, beq_refl)),
              once,
              HasEntries-put_log tab laws codecs formats gm s c.id (entry_of c cs uuid) cs once h,
            ),
      )

  logged-history :
      (s : S) (cs : List Change)
      → is_logged cs uuid ≡ false
      → IsHistory tab codecs gm.gid s cs
      → (entry s ≡ entry_of (change_of uuid gm) cs [])
        × HasEntries tab codecs gm.gid
            (logged tab laws codecs formats uuid gm s)
            (change_of uuid gm ∷ cs)
  unfolding logged linked
  logged-history s cs fresh h =
      let (same, entries) = linked-history s cs h in
      let l = entry s in
      let stored : log_at tab codecs gm.gid
            (put_log tab laws codecs formats gm.gid (linked s) (log uuid) l) uuid
          ≡ ok l =
        simp (view_laws, beq_refl) in
      (
        same,
        (
          ([], stored ∙ ap (λ (x : MemberLog). ok x) same),
          fresh,
          HasEntries-put_log tab laws codecs formats gm (linked s) uuid l cs fresh entries,
        ),
      )

  finish-IsHistory :
      (s : S) (l : MemberLog) (cs : List Change) (p : Outcome (Unit {0}) × S)
      → l ≡ entry_of (change_of uuid gm) cs []
      → HasLast tab codecs gm.gid s cs
      → Unmoved tab laws codecs formats gm
          (change_of uuid gm ∷ cs)
          (tab.get s (member_last_log_key gm.gid))
          p.1
      → let q = finish tab laws codecs formats uuid gm l p in
        IsHistory tab codecs gm.gid q.1 (history_after (change_of uuid gm) q.0 cs)
  finish-IsHistory s l cs (ok u, t) same end (entries, _) =
      let at : last_log_at tab codecs gm.gid (put_log tab laws codecs formats gm.gid t last_log l)
          ≡ ok l =
        simp view_laws in
      (
        HasEntries-put_last_log tab laws codecs formats gm t l (change_of uuid gm ∷ cs) entries,
        ([], at ∙ ap (λ (x : MemberLog). ok x) same),
      )
  finish-IsHistory s l cs (err e, t) same end ((_, _, entries), unmoved) =
      (entries, HasLast-of_same tab laws codecs formats gm s t cs unmoved end)
  finish-IsHistory s l cs (panic, t) same end ((_, _, entries), unmoved) =
      (entries, HasLast-of_same tab laws codecs formats gm s t cs unmoved end)

  -- Where the log of a group is that of some changes, it is so after one more change under a fresh
  -- id: with that change as its newest where the change succeeded, and with the old ones where not.
  -- The entries are linked back from the newest to the oldest.
  pub handle_member-IsHistory :
      (s : S) (cs : List Change)
      → is_logged cs uuid ≡ false
      → IsHistory tab codecs gm.gid s cs
      → let (outcome, t) = handle_member tab codecs uuid gm s in
        IsHistory tab codecs gm.gid t (history_after (change_of uuid gm) outcome cs)
  handle_member-IsHistory s cs fresh h =
      let (same, entries) = logged-history s cs fresh h in
      let s' = logged tab laws codecs formats uuid gm s in
      rw (handle_member-eq tab laws codecs formats uuid gm s) (
        finish-IsHistory s (entry s) cs (apply_action tab codecs gm s') same h.1 (
          apply_action-Unmoved tab laws codecs formats gm (change_of uuid gm ∷ cs)
            (tab.get s (member_last_log_key gm.gid)) s'
            (entries, last_log-logged tab laws codecs formats uuid gm s)))
