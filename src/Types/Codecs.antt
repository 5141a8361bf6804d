-- ===== src/Types/Codecs.antt =====
-- go-amino at one type: the calls that the program makes of it, and the round trip that it relies
-- on. A call gives its value and its error; a value that was decoded in part comes beside the error.
use go_achat_node.Prelude.{ℕ, ◌≤◌, ◌≡◌, ap, Bytes, Error, none, some, Outcome, ok, panic, length}

pub record Codec (A : Type 0) : Type 0 where
  -- `MarshalBinaryLengthPrefixed`
  pub marshal : A → Bytes × Error
  -- `UnmarshalBinaryLengthPrefixed` into a new value
  pub unmarshal : Bytes → A × Error
  -- `UnmarshalBinaryLengthPrefixedReader`, with its limit on the size
  pub read : ℕ → Bytes → A × Error

-- `wire` is what amino keeps of a value: the exported fields.
pub record CodecLaws {A : Type 0} (c : Codec A) (wire : A → A) : Type 0 where
  pub image : A → Bytes
  pub marshal_eq : (a : A) → c.marshal a ≡ (image a, none)
  pub unmarshal-image : (a : A) → c.unmarshal (image a) ≡ (wire a, none)
  pub read-image :
      (limit : ℕ) (a : A) → length (image a) ≤ limit → c.read limit (image a) ≡ (wire a, none)

-- `Bytes()`: `data, _ := Marshal...`
abbrev pub to_bytes : {A : Type 0} → Codec A → A → Bytes
to_bytes c a = (c.marshal a).0

abbrev pub or_panic : Bytes × Error → Outcome Bytes
or_panic (buf, none) = ok buf
or_panic (buf, some e) = panic

-- `mustToByte`
abbrev pub must_to_byte : {A : Type 0} → Codec A → A → Outcome Bytes
must_to_byte c a = or_panic (c.marshal a)

pub to_bytes_lem :
    {A : Type 0} {c : Codec A} {wire : A → A} (laws : CodecLaws c wire) (a : A)
    → to_bytes c a ≡ laws.image a
to_bytes_lem laws a = ap (λ (p : Bytes × Error). p.0) (laws.marshal_eq a)
