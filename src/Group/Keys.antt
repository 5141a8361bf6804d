-- ===== src/Group/Keys.antt =====
-- The four families of keys of mailbox_group.go, within one group.
use mathlib.Core.List.{append_assoc}
use go_achat_node.Prelude.{
  ◌≡◌, ◌≢◌, refl, sym, ◌∙◌, Bool, true, false, ◌++◌, Bytes, codes, beq, beq_refl, beq-append_left,
  beq-append_right, last_byte, last_byte-append, beq_of_last_byte_ne, arith,
}
use go_achat_node.Types.{Jid, Gid}
use go_achat_node.Group.{member_key, member_last_key, member_log_key, member_last_log_key}

-- A place of one group in the member table.
pub data Slot : Type 0 where
  item : Jid → Slot
  last : Slot
  log : Bytes → Slot
  last_log : Slot

abbrev pub key_of : Gid → Slot → Bytes
key_of gid (item id) = member_key gid id
key_of gid last = member_last_key gid
key_of gid (log id) = member_log_key gid id
key_of gid last_log = member_last_log_key gid

abbrev pub slot_beq : Slot → Slot → Bool
slot_beq (item a) (item b) = beq a b
slot_beq (log a) (log b) = beq a b
slot_beq last last = true
slot_beq last_log last_log = true
slot_beq _ _ = false

-- What stands at the end of the keys of a family.
abbrev end_of : Slot → Bytes
end_of (item _) = codes "_member"
end_of last = codes "_member_last"
end_of (log _) = codes "_memberlog"
end_of last_log = codes "_memberlog_last"

last_byte-key_of : (gid : Gid) (s : Slot) → last_byte (key_of gid s) ≡ last_byte (end_of s)
unfolding member_key member_last_key member_log_key member_last_log_key
last_byte-key_of gid (item id) = last_byte-append (gid ++ codes "_" ++ id) _ _
last_byte-key_of gid last = last_byte-append gid _ _
last_byte-key_of gid (log id) = last_byte-append (gid ++ codes "_" ++ id) _ _
last_byte-key_of gid last_log = last_byte-append gid _ _

key_beq_of_ends :
    (gid : Gid) (s t : Slot)
    → last_byte (end_of s) ≢ last_byte (end_of t)
    → beq (key_of gid s) (key_of gid t) ≡ false
key_beq_of_ends gid s t h =
    beq_of_last_byte_ne (key_of gid s) (key_of gid t)
      (λ e. h (sym (last_byte-key_of gid s) ∙ e ∙ last_byte-key_of gid t))

-- Two keys of one group are equal exactly when they are of one family and have the same id: a
-- write to one place of the member table leaves every other place of its group alone.
pub key_beq : (gid : Gid) (s t : Slot) → beq (key_of gid s) (key_of gid t) ≡ slot_beq s t
unfolding member_key member_last_key member_log_key member_last_log_key last_byte
key_beq gid (item a) (item b) = simp (append_assoc, beq-append_left, beq-append_right)
key_beq gid (log a) (log b) = simp (append_assoc, beq-append_left, beq-append_right)
key_beq gid last last = beq_refl (member_last_key gid)
key_beq gid last_log last_log = beq_refl (member_last_log_key gid)
key_beq gid last last_log = beq-append_left gid _ _ ∙ (unfold beq in refl)
key_beq gid last_log last = beq-append_left gid _ _ ∙ (unfold beq in refl)
key_beq gid s t = key_beq_of_ends gid s t (omega arith)
