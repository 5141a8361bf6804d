-- ===== src/Tests/Post.antt =====
-- Messages between two peers, by way of a mailbox, and the theorems on them.
use go_achat_node.Prelude.{
  ◌≤◌, ◌≡◌, refl, [], ◌∷◌, ◌++◌, Bytes, codes, beq, ne_of_beq, pos, length, ok, arith,
}
use go_achat_node.Types.{
  Jid, Message, CleanMsg, normal_msg, sync_msg, max_pkg, peerid, new_message, new_normal_message,
}
use go_achat_node.Types.Codecs.{CodecLaws}
use go_achat_node.Group.{group_prefix}
use go_achat_node.Group.Groups.{group_tab}
use go_achat_node.Mailbox.{put_msg}
use go_achat_node.Mailbox.Cleaning.{Queried}
use go_achat_node.Mailbox.Intrusion.{put_msg_intrudes, put_msg_overwrites_group}
use go_achat_node.Tests.Coder.{codec-CodecLaws, pair, bytes, number, int, put_int, list, put_items}
use go_achat_node.Tests.Disk.{Disk, disk, disk-DatabaseLaws, disk-IteratorLaws}
use go_achat_node.Tests.Letters.{mail_codecs, mail_formats}
use go_achat_node.Tests.Peers.{eve_id, eve, zoe, hello}

abbrev pub after_hello : Disk
after_hello = (put_msg disk mail_codecs hello []).1

abbrev Shows : Disk → Jid → Message → Type 0
Shows = Queried disk disk-DatabaseLaws disk-IteratorLaws mail_codecs mail_formats

abbrev clean_m1 : CleanMsg
clean_m1 = record { jid = eve; ids = codes "m1" ∷ [] }

abbrev pub sent : Message → Bytes
sent m = CodecLaws.image mail_formats.message m

pub hello_small : length (sent hello) ≤ max_pkg
unfolding mail_formats codec-CodecLaws pair bytes number int put_int list put_items new_message
    new_normal_message beq
hello_small = omega arith

abbrev sync : Message
sync = new_message (codes "m2") (pos 8) zoe eve [] (codes "sync") sync_msg []

sync_small : length (sent sync) ≤ max_pkg
unfolding mail_formats codec-CodecLaws pair bytes number int put_int list put_items new_message beq
sync_small = omega arith

-- A message that was sent to no one, with an id that starts with eve's.
abbrev forged : Message
forged = new_message [] (pos 9) zoe (codes "x") (eve_id ++ codes "m3") [] normal_msg []

put_msg_intrudes_example : Shows (put_msg disk mail_codecs forged after_hello).1 eve forged
unfolding new_message peerid beq
put_msg_intrudes_example =
    put_msg_intrudes disk disk-DatabaseLaws disk-IteratorLaws mail_codecs mail_formats forged
      after_hello eve (codes "m3") (omega arith) refl (ne_of_beq _ _ refl)

abbrev usurper : Message
usurper = new_message [] (pos 9) zoe (codes "x") (codes "GROUPclub") [] normal_msg []

put_msg_overwrites_group_example :
    (group_tab disk).get (put_msg disk mail_codecs usurper []).1 (codes "club") ≡ ok (sent usurper)
unfolding new_message group_prefix beq
put_msg_overwrites_group_example =
    put_msg_overwrites_group disk disk-DatabaseLaws disk-IteratorLaws mail_codecs mail_formats
      usurper [] (codes "club") (omega arith) refl

abbrev sweep : CleanMsg
sweep = record { jid = codes "x"; ids = codes "GROUPclub" ∷ [] }
