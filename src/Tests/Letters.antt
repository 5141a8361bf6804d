-- ===== src/Tests/Letters.antt =====
-- Formats for the types of the mailbox.
use go_achat_node.Prelude.{◌≡◌, refl, List, map, Bytes, ℕ, ℤ}
use go_achat_node.Types.{Attr, Message, MessageBag, CleanMsg}
use go_achat_node.Mailbox.{MailCodecs, MailLaws}
use go_achat_node.Tests.Coder.{Coder, bytes, number, int, pair, list, codec, codec-CodecLaws}
use go_achat_node.Tests.Formats.{list_back, map_same, Pair, Member, member}

abbrev from_attr : Attr → Pair
from_attr a = (a.key, a.val)

abbrev to_attr : Pair → Attr
to_attr (key, val) = record { key = key; val = val }

abbrev MessageData : Type 0
MessageData = (Member × ((ℤ × ℕ) × (ℤ × Bytes))) × (List Pair × (Bytes × Bytes))

abbrev from_message : Message → MessageData
from_message m = (
  (
    (m.envelope.id, (m.envelope.sender, m.envelope.to)),
    ((m.envelope.type, m.envelope.ack), (m.envelope.ct, m.envelope.gid)),
  ),
  (map from_attr m.payload.attrs, (m.payload.content, m.vsn)),
)

abbrev to_message : MessageData → Message
to_message (((id, (sender, to)), ((type, ack), (ct, gid))), (attrs, (content, vsn))) = record {
  envelope = record {
    id = id;
    sender = sender;
    to = to;
    type = type;
    ack = ack;
    ct = ct;
    gid = gid;
  };
  payload = record { attrs = map to_attr attrs; content = content };
  vsn = vsn;
}

unfoldable pub message_data : Coder MessageData
unfolding member
message_data =
    pair (pair member (pair (pair int number) (pair int bytes)))
      (pair (list (pair bytes bytes)) (pair bytes bytes))

pub message_back : (m : Message) → to_message (from_message m) ≡ m
message_back m =
    rw
      (
        list_back from_attr to_attr {h = λ a. a} (λ a. refl) m.payload.attrs,
        map_same m.payload.attrs,
      )
      refl

abbrev from_bag : MessageBag → List MessageData
from_bag b = map from_message b.messages

abbrev to_bag : List MessageData → MessageBag
to_bag l = record { messages = map to_message l }

pub bag_back : (b : MessageBag) → to_bag (from_bag b) ≡ b
bag_back b =
    rw (list_back from_message to_message {h = λ m. m} message_back b.messages, map_same b.messages)
      refl

abbrev from_clean : CleanMsg → Bytes × List Bytes
from_clean c = (c.jid, c.ids)

abbrev to_clean : Bytes × List Bytes → CleanMsg
to_clean (jid, ids) = record { jid = jid; ids = ids }

unfoldable pub mail_codecs : MailCodecs
unfolding message_data
mail_codecs = record {
  message = codec message_data from_message to_message;
  bag = codec (list message_data) from_bag to_bag;
  clean = codec (pair bytes (list bytes)) from_clean to_clean;
  jid = codec bytes (λ j. j) (λ j. j);
}

unfoldable pub mail_formats : MailLaws mail_codecs
unfolding mail_codecs
mail_formats = record {
  message = codec-CodecLaws message_data from_message to_message message_back;
  bag = codec-CodecLaws (list message_data) from_bag to_bag bag_back;
  clean = codec-CodecLaws (pair bytes (list bytes)) from_clean to_clean (λ c. refl);
  jid = codec-CodecLaws bytes (λ j. j) (λ j. j) (λ j. refl);
}
