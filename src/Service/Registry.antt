-- ===== src/Service/Registry.antt =====
-- `Start` of service.go and mailbox.go: the handlers that a node sets. The p2p service is outside:
-- what it does with a request for a protocol is a hypothesis on `request`, `IsPeer`.
use go_achat_node.Prelude.{
  ℕ, ◌≡◌, Option, none, some, List, [], ◌∷◌, Memᴰ, Bytes, codes, Outcome, ok, err, panic, Error,
  Exec,
}
use go_achat_node.Ldb.{Database}
use go_achat_node.Group.{GroupRsp, GroupMemberRsp, GroupCodecs}
use go_achat_node.Group.Service.{Answer, member_handler, update_handler}
use go_achat_node.Mailbox.{
  MailCodecs, Reply, pid_normal, pid_mailbox, pid_mailbox_query, pid_mailbox_clean, msg_handler,
  query_handler, clean_handler,
}

-- `PID_MAILBOX_GROUP_UPDATE`
abbrev pub pid_group_update : Bytes
pid_group_update = codes "/chat/mailbox/group/update/0.0.1"

-- `PID_MAILBOX_GROUP_DROP`
abbrev pub pid_group_drop : Bytes
pid_group_drop = codes "/chat/mailbox/group/drop/0.0.1"

-- `PID_MAILBOX_GROUP_MSG`
abbrev pub pid_group_msg : Bytes
pid_group_msg = codes "/chat/mailbox/group/msg/0.0.1"

-- `PID_MAILBOX_GROUP_MEMBER`
abbrev pub pid_group_member : Bytes
pid_group_member = codes "/chat/mailbox/group/member/0.0.1"

-- A handler: the caller's encoded public key, the uuids that it draws, and what it reads. It gives
-- what it wrote and what it returned, or `none` where it does not come to an end.
abbrev pub Handler : Type 0 → Type 0
Handler S = Bytes → (ℕ → Bytes) → Bytes → Exec S (Option Reply)

abbrev pub Handlers : Type 0 → Type 0
Handlers S = List (Bytes × Handler S)

-- `resp`: nothing is written of what cannot be encoded.
unfoldable pub resp : Bytes × Error → Bytes
resp (buf, none) = buf
resp (buf, some e) = []

unfoldable pub after :
    {S A : Type 0} → (A → Option Reply) → Outcome A × S → Outcome (Option Reply) × S
after f (ok a, s) = (ok (f a), s)
after f (err e, s) = (err e, s)
after f (panic, s) = (panic, s)

module _ {S : Type 0} (db : Database S) (groups : GroupCodecs) (fuel : ℕ) where
  member_reply : Answer GroupMemberRsp → Option Reply
  member_reply (some (rsp, e)) = some (resp (groups.member_rsp.marshal rsp), e)
  member_reply none = none

  update_reply : GroupRsp × Error → Option Reply
  update_reply (rsp, e) = some (resp (groups.group_rsp.marshal rsp), e)

  -- `groupService`
  unfoldable pub group_service : Handlers S
  unfolding after member_reply update_reply
  group_service =
      (
        pid_group_member,
        λ caller uuids input s. after member_reply (member_handler db groups fuel uuids input s),
      )
      ∷ (
        pid_group_update,
        λ caller uuids input s.
            after update_reply (update_handler db groups (uuids 0) caller input s),
      )
      ∷ []

module _ {S : Type 0} (db : Database S) (codecs : MailCodecs) (groups : GroupCodecs)
    (fuel : ℕ) where
  -- `mailbox.Start`
  unfoldable pub mailbox_start : Handlers S
  unfolding after group_service
  mailbox_start =
      (pid_mailbox_query, λ caller uuids input s. after some (query_handler db codecs input s))
      ∷ (pid_mailbox, λ caller uuids input s. after some (msg_handler db codecs input s))
      ∷ (pid_mailbox_clean, λ caller uuids input s. after some (clean_handler db codecs input s))
      ∷ group_service db groups fuel

  -- `ChatService.Start`, with the handler that `normalService` sets
  unfoldable pub chat_start : Handler S → Handlers S
  unfolding mailbox_start
  chat_start normal = (pid_normal, normal) ∷ mailbox_start

-- A peer with these handlers, to which this node is `caller`: a request for a protocol with a handler
-- is answered with what the handler wrote, where it returned no error, and one for a protocol without
-- a handler fails.
pub record IsPeer {S : Type 0} (handlers : Handlers S) (caller : Bytes) (uuids : ℕ → Bytes)
    (request : Bytes → Bytes → Bytes → Exec S Bytes) (peer : Bytes) : Type 0 where
  pub served :
      (pid : Bytes) (h : Handler S) (buf w : Bytes) (s t : S)
      → Memᴰ (pid, h) handlers
      → h caller uuids buf s ≡ (ok (some (w, none)), t)
      → request peer pid buf s ≡ (ok w, t)
  pub refused :
      (pid buf : Bytes) (s : S)
      → ((h : Handler S) → Memᴰ (pid, h) handlers → ⊥)
      → (e : Bytes) × (request peer pid buf s ≡ (err e, s))
