-- ===== src/Tests/Histories.antt =====
-- Requests that come to a mailbox one after the other, and the theorem on them.
use go_achat_node.Prelude.{
  ◌*◌, ◌≤◌, ◌≡◌, ◌≢◌, ◌↔◌, refl, some, List, [], ◌∷◌, Memᴰ, Bytes, codes, length, All, arith,
}
use go_achat_node.Types.{Message, CleanMsg, peerid, new_message, new_normal_message}
use go_achat_node.Types.Codecs.{CodecLaws}
use go_achat_node.Types.Sorting.{IsSorted}
use go_achat_node.Mailbox.{do_query_msg}
use go_achat_node.Mailbox.Boxes.{Request, put, clean, apply_all, box_of, serve_all, IsOrderly}
use go_achat_node.Mailbox.Histories.{do_query_msg-apply_all}
use go_achat_node.Tests.Coder.{codec-CodecLaws, pair, bytes, list, put_items}
use go_achat_node.Tests.Disk.{disk, disk-DatabaseLaws, disk-IteratorLaws}
use go_achat_node.Tests.Letters.{mail_codecs, mail_formats}
use go_achat_node.Tests.Peers.{eve, hello}
use go_achat_node.Tests.Post.{hello_small}

abbrev sweep : CleanMsg
sweep = record { jid = eve; ids = codes "m0" ∷ codes "m1" ∷ [] }

sweep_small : length (CodecLaws.image mail_formats.clean sweep) ≤ 2 * 1024 * 1024
unfolding mail_formats codec-CodecLaws pair bytes list put_items
sweep_small = omega arith

abbrev requests : List Request
requests = put hello ∷ clean sweep ∷ put hello ∷ []

requests-IsOrderly : All (IsOrderly mail_codecs mail_formats (peerid eve)) requests
unfolding new_normal_message new_message
requests-IsOrderly = ((refl, hello_small), ((refl, sweep_small), ((refl, hello_small), tt)))

do_query_msg-apply_all_example :
    let answer =
      (do_query_msg disk mail_codecs
        (serve_all disk mail_codecs mail_formats requests [])
        eve).messages in
    ((m : Message)
      → Memᴰ m answer ↔ (
          (id : Bytes) × (id ≢ [])
          × (apply_all (peerid eve) requests (box_of disk mail_codecs [] (peerid eve)) id
              ≡ some m)))
    × IsSorted answer
do_query_msg-apply_all_example =
    do_query_msg-apply_all disk disk-DatabaseLaws mail_codecs mail_formats disk-IteratorLaws
      requests [] eve requests-IsOrderly
