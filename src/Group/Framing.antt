-- ===== src/Group/Framing.antt =====
-- `handleMember` of mailbox_group.go writes and deletes through the member table only: a property of
-- the store that such writes keep.
use go_achat_node.Prelude.{
  Bool, true, false, if◌then◌else◌, Bytes, codes, fail, Outcome, ok, err, panic, Exec, lift,
  attempt, attempt_from, bind_from, ◌>>=◌, beq,
}
use go_achat_node.Ldb.{Database}
use go_achat_node.Ldb.Laws.{DatabaseLaws}
use go_achat_node.Types.{Jid}
use go_achat_node.Types.Codecs.{Codec, must_to_byte}
use go_achat_node.Group.{
  GroupMember, MemberItem, MemberLog, GroupCodecs, add, sub, member_key, member_last_key,
  member_log_key, member_last_log_key,
}
use go_achat_node.Group.Members.{
  get_member, put_encoded, link_log, link_item, add_member, unlink_next, sub_member, apply_action,
  handle_member,
}

module _ {S : Type 0} (tab : Database S) (laws : DatabaseLaws tab) (codecs : GroupCodecs)
    (P : S → Type 0) (Q : Bytes → Type 0)
    (keep_stored : (s : S) (k v : Bytes) → Q k → P s → P (laws.stored s k v))
    (keep_removed : (s : S) (k : Bytes) → Q k → P s → P (laws.removed s k)) (gm : GroupMember)
    (on_item : (id : Jid) → Q (member_key gm.gid id)) (on_last : Q (member_last_key gm.gid)) where
  abbrev Keeps : {A : Type 0} → Exec S A → Type 0
  Keeps m = (s : S) → P s → P (m s).1

  Keeps-bind_from :
      {A B : Type 0} (f : A → Exec S B) (r : Outcome A × S)
      → ((a : A) → Keeps (f a))
      → P r.1
      → P (bind_from f r).1
  Keeps-bind_from f (ok a, s) k p = k a s p
  Keeps-bind_from f (err e, s) k p = p
  Keeps-bind_from f (panic, s) k p = p

  Keeps-bind :
      {A B : Type 0} (m : Exec S A) (f : A → Exec S B)
      → Keeps m
      → ((a : A) → Keeps (f a))
      → Keeps (m >>= f)
  Keeps-bind m f h k s p = Keeps-bind_from f (m s) k (h s p)

  Keeps-attempt_from : {A : Type 0} (r : Outcome A × S) → P r.1 → P (attempt_from r).1
  Keeps-attempt_from (ok a, s) p = p
  Keeps-attempt_from (err e, s) p = p
  Keeps-attempt_from (panic, s) p = p

  Keeps-attempt : {A : Type 0} (m : Exec S A) → Keeps m → Keeps (attempt m)
  Keeps-attempt m h s p = Keeps-attempt_from (m s) (h s p)

  Keeps-put : (k v : Bytes) → Q k → Keeps (tab.put k v)
  Keeps-put k v q s p = rw (laws.put_eq k v s) (keep_stored s k v q p)

  Keeps-delete : (k : Bytes) → Q k → Keeps (tab.delete k)
  Keeps-delete k q s p = rw (laws.delete_eq k s) (keep_removed s k q p)

  Keeps-put_encoded :
      {A : Type 0} (c : Codec A) (k : Bytes) (a : A) → Q k → Keeps (put_encoded tab codecs c k a)
  unfolding put_encoded
  Keeps-put_encoded c k a q =
      Keeps-bind (lift (must_to_byte c a)) _ (λ s p. p)
        λ buf.
          Keeps-bind (attempt (tab.put k buf)) _ (Keeps-attempt (tab.put k buf) (Keeps-put k buf q))
            λ _ s p. p

  Keeps-link_item : (r : Outcome Bytes) (i : MemberItem) → Keeps (link_item tab codecs gm.gid r i)
  unfolding link_item
  Keeps-link_item (ok buf) i s p =
      Keeps-bind (put_encoded tab codecs codecs.item _ _) _
        (Keeps-put_encoded codecs.item _ _ (on_item _)) (λ _ s p. p) s p
  Keeps-link_item (err e) i s p = p
  Keeps-link_item panic i s p = p

  Keeps-unlink_next :
      (r : Outcome MemberItem) (i : MemberItem) → Keeps (unlink_next tab codecs gm.gid r i)
  unfolding unlink_next
  Keeps-unlink_next (ok n) i s p =
      Keeps-bind (put_encoded tab codecs codecs.item _ _) _
        (Keeps-put_encoded codecs.item _ _ (on_item _)) (λ _ s p. p) s p
  Keeps-unlink_next (err e) i s p =
      Keeps-bind (put_encoded tab codecs codecs.item _ _) _
        (Keeps-put_encoded codecs.item _ _ on_last) (λ _ s p. p) s p
  Keeps-unlink_next panic i s p = p

  Keeps-add_member : Keeps (add_member tab codecs gm)
  unfolding add_member
  Keeps-add_member s =
      Keeps-bind (link_item tab codecs gm.gid _ _) _ (Keeps-link_item _ _)
        (λ itm.
          Keeps-bind (put_encoded tab codecs codecs.item _ _) _
            (Keeps-put_encoded codecs.item _ _ (on_item _))
            λ _. Keeps-put_encoded codecs.item _ _ on_last)
        s

  Keeps-sub_member : Keeps (sub_member tab codecs gm)
  unfolding sub_member
  Keeps-sub_member s p =
      Keeps-bind_from _ (get_member tab codecs s gm.gid gm.id, s)
        (λ (itm : MemberItem).
          Keeps-bind {A = MemberItem} {B = Unit {0}}
            (lift (get_member tab codecs s gm.gid itm.prve)) _ (λ s p. p)
            λ (before : MemberItem).
              Keeps-bind {A = MemberItem} {B = Unit {0}}
                (unlink_next tab codecs gm.gid (get_member tab codecs s gm.gid itm.next) before) _
                (Keeps-unlink_next (get_member tab codecs s gm.gid itm.next) before)
                λ (itm_prve : MemberItem).
                  Keeps-bind {A = Unit {0}} {B = Unit {0}}
                    (put_encoded tab codecs codecs.item (member_key gm.gid itm_prve.id) itm_prve) _
                    (Keeps-put_encoded codecs.item (member_key gm.gid itm_prve.id) itm_prve
                      (on_item itm_prve.id))
                    λ _.
                      Keeps-bind {A = Outcome (Unit {0})} {B = Unit {0}}
                        (attempt (tab.delete (member_key gm.gid itm.id))) _
                        (Keeps-attempt (tab.delete (member_key gm.gid itm.id))
                          (Keeps-delete (member_key gm.gid itm.id) (on_item itm.id)))
                        (λ _ s p. p))
        p

  Keeps-if :
      {A : Type 0} (b : Bool) (m n : Exec S A) → Keeps m → Keeps n → Keeps (if b then m else n)
  Keeps-if true m n h k = h
  Keeps-if false m n h k = k

  pub Keeps-apply_action : Keeps (apply_action tab codecs gm)
  unfolding apply_action
  Keeps-apply_action =
      Keeps-if {A = Unit {0}} (beq gm.action add) (add_member tab codecs gm)
        (if beq gm.action sub then sub_member tab codecs gm else fail (codes "not support opt"))
        Keeps-add_member
        (Keeps-if {A = Unit {0}} (beq gm.action sub) (sub_member tab codecs gm)
          (fail (codes "not support opt")) Keeps-sub_member (λ s p. p))

  module _ (on_log : (id : Bytes) → Q (member_log_key gm.gid id))
      (on_last_log : Q (member_last_log_key gm.gid)) where
    Keeps-link_log : (r : Outcome Bytes) (l : MemberLog) → Keeps (link_log tab codecs gm.gid r l)
    unfolding link_log
    Keeps-link_log (ok buf) l s p =
        Keeps-bind (put_encoded tab codecs codecs.log _ _) _
          (Keeps-put_encoded codecs.log _ _ (on_log _)) (λ _ s p. p) s p
    Keeps-link_log (err e) l s p = p
    Keeps-link_log panic l s p = p

    pub Keeps-handle_member : (uuid : Bytes) → Keeps (handle_member tab codecs uuid gm)
    unfolding handle_member
    Keeps-handle_member uuid s =
        Keeps-bind {A = MemberLog} {B = Unit {0}} (link_log tab codecs gm.gid _ _) _
          (Keeps-link_log _ _)
          (λ (l : MemberLog).
            Keeps-bind {A = Bytes} {B = Unit {0}} (lift (must_to_byte codecs.log l)) _ (λ s p. p)
              λ (last_mlog : Bytes).
                Keeps-bind {A = Outcome (Unit {0})} {B = Unit {0}}
                  (attempt (tab.put (member_log_key gm.gid l.id) last_mlog)) _
                  (Keeps-attempt (tab.put (member_log_key gm.gid l.id) last_mlog)
                    (Keeps-put (member_log_key gm.gid l.id) last_mlog (on_log l.id)))
                  λ _.
                    Keeps-bind {A = Unit {0}} {B = Unit {0}} (apply_action tab codecs gm) _
                      Keeps-apply_action
                      λ _. Keeps-put (member_last_log_key gm.gid) last_mlog on_last_log)
          s
