-- ===== src/Tests/Network.antt =====
-- A sender, a mailbox and a receiver on a network, and the theorems on them.
use go_achat_node.Prelude.{
  ◌*◌, ◌≤◌, ◌≡◌, [], ◌∷◌, refl, none, some, Bytes, codes, beq, if◌then◌else◌, length, Outcome, ok,
  err, panic, Exec, arith,
}
use go_achat_node.Ldb.{new_table, ldb_database, kfilter}
use go_achat_node.Types.{peerid, mailid, new_message, new_normal_message}
use go_achat_node.Types.Codecs.{CodecLaws}
use go_achat_node.Types.Sorting.{insert_sorted, sort}
use go_achat_node.Mailbox.{
  keep, collect, put_msg, do_query_msg, msg_handler, query_handler, clean_handler, pid_mailbox,
  pid_mailbox_query, pid_mailbox_clean, Reply,
}
use go_achat_node.Service.{clean_own}
use go_achat_node.Service.Forwarding.{IsMailbox}
use go_achat_node.Service.Reading.{ids_of, IsKeyed, put_msg-IsKeyed, query_then_clean}
use go_achat_node.Tests.Coder.{
  codec, codec-CodecLaws, pair, bytes, get_bytes, number, get_number, int, put_int, get_int, list,
  put_items, get_items, get_list,
}
use go_achat_node.Tests.Disk.{
  Disk, disk, disk-DatabaseLaws, disk-IteratorLaws, entries, without, lookup,
}
use go_achat_node.Tests.Letters.{mail_codecs, mail_formats, message_data}
use go_achat_node.Tests.Peers.{box_id, eve, hello}
use go_achat_node.Tests.Post.{after_hello}

-- A network in which only the mailbox can be reached.
abbrev answered : Outcome Reply × Disk → Outcome Bytes × Disk
answered (ok (w, none), t) = (ok w, t)
answered (ok (w, some e), t) = (err e, t)
answered (err e, t) = (err e, t)
answered (panic, t) = (panic, t)

unfoldable serve : Bytes → Bytes → Exec Disk Bytes
serve pid input s =
    if beq pid pid_mailbox
    then answered (msg_handler disk mail_codecs input s)
    else if beq pid pid_mailbox_query
    then answered (query_handler disk mail_codecs input s)
    else if beq pid pid_mailbox_clean
    then answered (clean_handler disk mail_codecs input s)
    else (err (codes "protocol not supported"), s)

unfoldable pub request : Bytes → Bytes → Bytes → Exec Disk Bytes
unfolding serve
request peer pid input s =
    if beq peer box_id then serve pid input s else (err (codes "unreachable"), s)

pub request-IsMailbox :
    IsMailbox disk disk-DatabaseLaws disk-IteratorLaws mail_codecs mail_formats request (mailid eve)
unfolding request serve mailid beq pid_mailbox pid_mailbox_query pid_mailbox_clean
request-IsMailbox = record {
  puts = λ buf w s t h. rw h refl;
  queries = λ buf w s t h. rw h refl;
  cleans = λ buf w s t h. rw h refl;
}

pub jid_small : length (CodecLaws.image mail_formats.jid eve) ≤ 128
unfolding mail_formats codec-CodecLaws bytes
jid_small = omega arith

nothing-IsKeyed : IsKeyed disk disk-DatabaseLaws disk-IteratorLaws mail_codecs mail_formats [] eve
unfolding ldb_database lookup
nothing-IsKeyed = record { own_id = λ id buf m got value. cc }

pub after_hello-IsKeyed :
    IsKeyed disk disk-DatabaseLaws disk-IteratorLaws mail_codecs mail_formats after_hello eve
unfolding new_message new_normal_message
after_hello-IsKeyed =
    put_msg-IsKeyed disk disk-DatabaseLaws disk-IteratorLaws mail_codecs mail_formats hello [] eve
      refl nothing-IsKeyed

pub clean_small :
    length (
      CodecLaws.image mail_formats.clean (record {
        jid = eve;
        ids = ids_of (do_query_msg disk mail_codecs after_hello eve).messages;
      }))
    ≤ 2 * 1024 * 1024
unfolding mail_formats mail_codecs codec codec-CodecLaws pair bytes get_bytes number get_number int
    put_int get_int list put_items get_items get_list new_message new_normal_message beq
    do_query_msg put_msg new_table ldb_database entries without collect kfilter keep sort
    insert_sorted peerid message_data
clean_small = omega arith

pub after_hello-messages : (do_query_msg disk mail_codecs after_hello eve).messages ≡ hello ∷ []
unfolding mail_codecs codec pair bytes get_bytes number get_number int put_int get_int list
    put_items get_items get_list new_message new_normal_message beq do_query_msg put_msg new_table
    ldb_database entries without collect kfilter keep sort insert_sorted peerid message_data
after_hello-messages = refl

query_then_clean_example :
    let ids = ids_of (do_query_msg disk mail_codecs after_hello eve).messages in
    let s = (clean_own request mail_codecs eve ids after_hello).1 in
    ((clean_own request mail_codecs eve ids after_hello).0 ≡ ok tt)
    × ((do_query_msg disk mail_codecs s eve).messages ≡ [])
query_then_clean_example =
    query_then_clean disk disk-DatabaseLaws disk-IteratorLaws mail_codecs mail_formats request
      after_hello eve request-IsMailbox after_hello-IsKeyed clean_small
