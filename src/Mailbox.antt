-- ===== src/Mailbox.antt =====
-- mailbox.go: the mailbox keeps messages for peers that are away. Each message is stored in the
-- table of its receiver's peer id, under the id of the message.
pub mod Contents
pub mod Cleaning
pub mod Delivery
pub mod Intrusion
pub mod Boxes
pub mod Histories
use go_achat_node.Prelude.{
  ◌*◌, ◌||◌, Option, none, some, List, [], ◌∷◌, Bytes, codes, if◌then◌else◌, ltb_ℤ, eqb_ℤ, Outcome,
  ok, err, panic, Error, Exec, pure, fail, attempt, ◌>>=◌, ◌>>◌,
}
use go_achat_node.Ldb.{Database, new_table, kfilter}
use go_achat_node.Types.{
  Jid, Message, MessageList, MessageBag, CleanMsg, MsgType, normal_msg, group_msg, max_pkg, peerid,
  mailid,
}
use go_achat_node.Types.Codecs.{Codec, CodecLaws, to_bytes}
use go_achat_node.Types.Sorting.{sort}
use go_achat_node.Group.Members.{or_error}
use go_achat_node.Group.Service.{success}

-- amino at the types of the mailbox.
pub record MailCodecs : Type 0 where
  pub message : Codec Message
  pub bag : Codec MessageBag
  pub clean : Codec CleanMsg
  pub jid : Codec Jid

-- All their fields are exported.
pub record MailLaws (c : MailCodecs) : Type 0 where
  pub message : CodecLaws c.message (λ m. m)
  pub bag : CodecLaws c.bag (λ b. b)
  pub clean : CodecLaws c.clean (λ m. m)
  pub jid : CodecLaws c.jid (λ j. j)

-- The protocol ids of service.go.
unfoldable pub pid_normal : Bytes
pid_normal = codes "/chat/normal/0.0.1"

unfoldable pub pid_group : Bytes
pid_group = codes "/chat/group/0.0.1"

unfoldable pub pid_mailbox : Bytes
pid_mailbox = codes "/chat/mailbox/put/0.0.1"

unfoldable pub pid_mailbox_query : Bytes
pid_mailbox_query = codes "/chat/mailbox/query/0.0.1"

unfoldable pub pid_mailbox_clean : Bytes
pid_mailbox_clean = codes "/chat/mailbox/clean/0.0.1"

-- What a handler wrote and what it returned.
abbrev pub Reply : Type 0
Reply = Bytes × Error

-- `Message.FromBytes`
abbrev pub message_from_bytes : MailCodecs → Bytes → Message × Error
message_from_bytes codecs data' = codecs.message.unmarshal data'

-- `Message.FromReader`
abbrev pub message_from_reader : MailCodecs → Bytes → Message × Error
message_from_reader codecs input = codecs.message.read max_pkg input

-- What `doQueryMsg` does with a value: a message that does not decode is passed over.
unfoldable pub keep : Message × Error → MessageList → MessageList
keep (m, none) sl = m ∷ sl
keep (m, some e) sl = sl

-- The loop of `doQueryMsg` over the iterator.
unfoldable pub collect : MailCodecs → Bytes → List (Bytes × Bytes) → MessageList
unfolding keep
collect codecs id [] = []
collect codecs id ((key, value) ∷ it) =
    let sl = collect codecs id it in
    if kfilter id key then keep (message_from_bytes codecs value) sl else sl

module _ {S : Type 0} (db : Database S) (codecs : MailCodecs) where
  -- `putMsg`
  unfoldable pub put_msg : Message → Exec S (Unit {0})
  put_msg msg =
      (new_table db (peerid msg.envelope.to)).put msg.envelope.id (to_bytes codecs.message msg)

  -- The loop of `doCleanMsg` over the ids.
  unfoldable pub delete_all : Database S → List Bytes → Exec S (Unit {0})
  delete_all tab [] = pure tt
  delete_all tab (mid ∷ mids) = do attempt (tab.delete mid); delete_all tab mids

  -- `doCleanMsg`
  unfoldable pub do_clean_msg : CleanMsg → Exec S (Unit {0})
  do_clean_msg msg = delete_all (new_table db (peerid msg.jid)) msg.ids

  -- `doQueryMsg`
  unfoldable pub do_query_msg : S → Jid → MessageBag
  do_query_msg s jid = record {
    messages = sort (collect codecs (peerid jid) ((new_table db (peerid jid)).new_iterator s));
  }

  put_reply : Outcome (Unit {0}) → Exec S Reply
  put_reply (ok _) s = (ok (success, none), s)
  put_reply (err e) s = (ok (e, some e), s)
  put_reply panic s = (panic, s)

  -- `verifyMsg` accepts every message.
  msg_request : Message × Error → Exec S Reply
  unfolding put_reply
  msg_request (msg, some e) = pure (e, some e)
  msg_request (msg, none) =
      if eqb_ℤ msg.envelope.type normal_msg || eqb_ℤ msg.envelope.type group_msg
      then (do stored ← attempt (put_msg msg); put_reply stored)
      else pure ([], some (codes "not support yet"))

  -- The handler of PID_MAILBOX, `msgService`.
  unfoldable pub msg_handler : Bytes → Exec S Reply
  unfolding msg_request
  msg_handler input = msg_request (message_from_reader codecs input)

  query_request : Jid × Error → Exec S Reply
  query_request (k, none) s = (ok (to_bytes codecs.bag (do_query_msg s k), none), s)
  query_request (k, some e) s = (ok (to_bytes codecs.bag (record { messages = [] }), some e), s)

  -- The handler of PID_MAILBOX_QUERY, `queryService`.
  unfoldable pub query_handler : Bytes → Exec S Reply
  unfolding query_request
  query_handler input = query_request (codecs.jid.read 128 input)

  clean_request : CleanMsg × Error → Exec S Reply
  clean_request (msg, none) = do do_clean_msg msg; pure ([], none)
  clean_request (msg, some e) = pure ([], some e)

  -- The handler of PID_MAILBOX_CLEAN, `cleanService`.
  unfoldable pub clean_handler : Bytes → Exec S Reply
  unfolding clean_request
  clean_handler input = clean_request (codecs.clean.read (2 * 1024 * 1024) input)

-- The client's side; `request` is `RequestWithTimeout` of the p2p service: the peer, the protocol
-- and the data, giving the answer.
module _ {N : Type 0} (request : Bytes → Bytes → Bytes → Exec N Bytes) (codecs : MailCodecs) where
  -- `CleanMsg`
  unfoldable pub clean_msg : Jid → List Bytes → Exec N (Unit {0})
  clean_msg jid ids = do
    data' ← λ n. (or_error (codecs.clean.marshal (record { jid = jid; ids = ids })), n)
    request (mailid jid) pid_mailbox_clean data'
    pure tt

  -- `QueryMsg`
  unfoldable pub query_msg : Jid → Exec N MessageBag
  query_msg jid = do
    data' ← λ n. (or_error (codecs.jid.marshal jid), n)
    rtn ← request (mailid jid) pid_mailbox_query data'
    λ n. (or_error (codecs.bag.unmarshal rtn), n)
