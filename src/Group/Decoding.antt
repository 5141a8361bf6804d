-- ===== src/Group/Decoding.antt =====
-- The records of mailbox_group.go as they are read back from the store.
use go_achat_node.Prelude.{
  ◌≡◌, refl, Bool, true, false, Bytes, if◌then◌else◌, Outcome, ok, err, panic, arith,
}
use go_achat_node.Types.Codecs.{Codec, CodecLaws}
use go_achat_node.Group.{MemberItem, MemberLog, GroupCodecs, StoredLaws, exported_item}
use go_achat_node.Group.Members.{decode}

pub decode_if :
    {A : Type 0} (c : Codec A) (b : Bool) (x y : Outcome Bytes)
    → decode c (if b then x else y) ≡ (if b then decode c x else decode c y)
decode_if c true x y = refl
decode_if c false x y = refl

-- A value that decodes was read, and decoded with no error.
pub decode-eq-ok :
    {A : Type 0} (c : Codec A) (r : Outcome Bytes) {a : A}
    → decode c r ≡ ok a
    → (buf : Bytes) × (r ≡ ok buf) × ((c.unmarshal buf).0 ≡ a)
decode-eq-ok c (ok buf) h = (buf, refl, ground arith)
decode-eq-ok c (err e) h = cc
decode-eq-ok c panic h = cc

-- What was written in the right format reads back.
module _ (codecs : GroupCodecs) (formats : StoredLaws codecs) where
  pub decode-item :
      (i : MemberItem)
      → decode codecs.item (ok (CodecLaws.image formats.item i)) ≡ ok (exported_item i)
  decode-item i = simp (CodecLaws.unmarshal-image formats.item)

  pub decode-log : (l : MemberLog) → decode codecs.log (ok (CodecLaws.image formats.log l)) ≡ ok l
  decode-log l = simp (CodecLaws.unmarshal-image formats.log)
