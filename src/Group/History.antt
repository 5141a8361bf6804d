-- ===== src/Group/History.antt =====
-- The log of `handleMember` of mailbox_group.go: what it means that its entries, from the last one
-- back, are some changes, and which writes leave it alone.
use go_achat_node.Prelude.{
  ◌≡◌, refl, ap, ◌∙◌, Bool, false, ◌||◌, List, [], ◌∷◌, Bytes, beq, Outcome, ok, err, arith,
}
use go_achat_node.Ldb.{Database}
use go_achat_node.Ldb.Laws.{DatabaseLaws}
use go_achat_node.Types.{Jid}
use go_achat_node.Group.{
  GroupMember, MemberAction, MemberLog, GroupCodecs, StoredLaws, member_key, member_last_key,
  member_log_key, member_last_log_key,
}
use go_achat_node.Group.Members.{apply_action, decode}
use go_achat_node.Group.Keys.{item, last, log, last_log, key_beq}
use go_achat_node.Group.Views.{log_at, last_log_at, put_log, view_laws}
use go_achat_node.Group.Chain.{beq_comm}
use go_achat_node.Group.Framing.{Keeps-apply_action}

-- A change: the id of its entry, the action, and the member.
pub record Change : Type 0 where
  pub id : Bytes
  pub action : MemberAction
  pub member_id : Jid

abbrev pub change_of : Bytes → GroupMember → Change
change_of uuid gm = record { id = uuid; action = gm.action; member_id = gm.id }

abbrev pub last_change : List Change → Bytes
last_change [] = []
last_change (c ∷ cs) = c.id

abbrev pub is_logged : List Change → Bytes → Bool
is_logged [] id = false
is_logged (c ∷ cs) id = beq c.id id || is_logged cs id

-- The entry of a change with the changes `cs` before it; its link forward is `next`.
abbrev pub entry_of : Change → List Change → Bytes → MemberLog
entry_of c cs next = record {
  id = c.id;
  prve = last_change cs;
  next = next;
  action = c.action;
  gid = [];
  member_id = c.member_id;
}

-- The changes after one more that has some outcome.
abbrev pub history_after : Change → Outcome (Unit {0}) → List Change → List Change
history_after c (ok _) cs = c ∷ cs
history_after c _ cs = cs

module _ {S : Type 0} (tab : Database S) (codecs : GroupCodecs) (gid : Bytes) (s : S) where
  -- The entries of the changes, the newest first, each with a link back to the one before it.
  abbrev pub HasEntries : List Change → Type 0
  HasEntries [] = Unit
  HasEntries (c ∷ cs) =
      ((next : Bytes) × (log_at tab codecs gid s c.id ≡ ok (entry_of c cs next)))
      × (is_logged cs c.id ≡ false)
      × HasEntries cs

  abbrev pub HasLast : List Change → Type 0
  HasLast [] = (e : Bytes) × (tab.get s (member_last_log_key gid) ≡ err e)
  HasLast (c ∷ cs) = (next : Bytes) × (last_log_at tab codecs gid s ≡ ok (entry_of c cs next))

  -- The log of the group is that of the changes `cs`.
  abbrev pub IsHistory : List Change → Type 0
  IsHistory cs = HasEntries cs × HasLast cs

module _ {S : Type 0} (tab : Database S) (laws : DatabaseLaws tab) (codecs : GroupCodecs)
    (formats : StoredLaws codecs) (gm : GroupMember) where
  -- A write of an entry that is not among them keeps the entries.
  pub HasEntries-put_log :
      (s : S) (id : Bytes) (l : MemberLog) (cs : List Change)
      → is_logged cs id ≡ false
      → HasEntries tab codecs gm.gid s cs
      → HasEntries tab codecs gm.gid (put_log tab laws codecs formats gm.gid s (log id) l) cs
  HasEntries-put_log s id l [] out h = tt
  HasEntries-put_log s id l (c ∷ cs) out ((next, at), once, h) =
      let apart : beq id c.id ≡ false = ground (arith, beq_comm id c.id) in
      ((next, simp view_laws (rw apart at)), once, HasEntries-put_log s id l cs (ground arith) h)

  pub HasEntries-put_last_log :
      (s : S) (l : MemberLog) (cs : List Change)
      → HasEntries tab codecs gm.gid s cs
      → HasEntries tab codecs gm.gid (put_log tab laws codecs formats gm.gid s last_log l) cs
  HasEntries-put_last_log s l [] h = tt
  HasEntries-put_last_log s l (c ∷ cs) ((next, at), once, h) =
      ((next, simp view_laws at), once, HasEntries-put_last_log s l cs h)

  -- The key is neither that of a log entry nor that of the last one.
  abbrev IsApart : Bytes → Type 0
  IsApart k =
      ((id : Bytes) → beq k (member_log_key gm.gid id) ≡ false)
      × (beq k (member_last_log_key gm.gid) ≡ false)

  item-IsApart : (id : Jid) → IsApart (member_key gm.gid id)
  item-IsApart id = (λ j. key_beq gm.gid (item id) (log j), key_beq gm.gid (item id) last_log)

  last-IsApart : IsApart (member_last_key gm.gid)
  last-IsApart = (λ j. key_beq gm.gid last (log j), key_beq gm.gid last last_log)

  -- A store that shows the same entries has the same ones.
  HasEntries-of_same :
      (s t : S) (cs : List Change)
      → ((id : Bytes) → tab.get t (member_log_key gm.gid id) ≡ tab.get s (member_log_key gm.gid id))
      → HasEntries tab codecs gm.gid s cs
      → HasEntries tab codecs gm.gid t cs
  unfolding log_at
  HasEntries-of_same s t [] same h = tt
  HasEntries-of_same s t (c ∷ cs) same ((next, at), once, h) =
      ((next, ap (decode codecs.log) (same c.id) ∙ at), once, HasEntries-of_same s t cs same h)

  -- What the action leaves of the log.
  abbrev pub Unmoved : List Change → Outcome Bytes → S → Type 0
  Unmoved cs r t = HasEntries tab codecs gm.gid t cs × (tab.get t (member_last_log_key gm.gid) ≡ r)

  pub apply_action-Unmoved :
      (cs : List Change) (r : Outcome Bytes) (s : S)
      → Unmoved cs r s
      → Unmoved cs r (apply_action tab codecs gm s).1
  apply_action-Unmoved cs r =
      Keeps-apply_action tab laws codecs (Unmoved cs r) IsApart
        (λ t k v (entry, end) (h, at). (
          HasEntries-of_same t (laws.stored t k v) cs
              (λ id. laws.get-stored t k v _ ∙ rw (entry id) refl) h,
          laws.get-stored t k v _ ∙ rw end at,
        ))
        (λ t k (entry, end) (h, at). (
          HasEntries-of_same t (laws.removed t k) cs
              (λ id. laws.get-removed t k _ ∙ rw (entry id) refl) h,
          laws.get-removed t k _ ∙ rw end at,
        ))
        gm item-IsApart last-IsApart

  pub HasLast-of_same :
      (s t : S) (cs : List Change)
      → tab.get t (member_last_log_key gm.gid) ≡ tab.get s (member_last_log_key gm.gid)
      → HasLast tab codecs gm.gid s cs
      → HasLast tab codecs gm.gid t cs
  unfolding last_log_at
  HasLast-of_same s t [] same (e, h) = (e, same ∙ h)
  HasLast-of_same s t (c ∷ cs) same (next, h) = (next, ap (decode codecs.log) same ∙ h)
