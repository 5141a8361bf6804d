-- ===== src/Rpc/Groups.antt =====
-- rpc/group.go: "create" of the group service; and the services that `startService` files. JSON is
-- read and written by amino and encoding/json, the key of a new group is drawn outside.
use go_achat_node.Prelude.{
  Option, none, some, List, [], ◌∷◌, ◌++◌, map, Bytes, codes, beq, if◌then◌else◌, Outcome, ok, err,
  panic, Error, Exec,
}
use go_achat_node.Types.{Jid, Gid, mailid}
use go_achat_node.Group.{Group, GroupRsp, GroupCodecs}
use go_achat_node.Group.Service.{gen_group}
use go_achat_node.Rpc.{
  Param, text, object, other, Req, created, Rsp, new_rsp, failed, Node, RpcFn, Services, get_rpc_fn,
}

-- What the two services act on: the address book, and what is behind the p2p service.
pub record World (U N : Type 0) : Type 0 where
  pub users : U
  pub net : N

pub record GroupJson (O : Type 0) : Type 0 where
  -- `amino.UnmarshalJSON` into a `groupBean`
  pub from_json : Bytes → Group × Error
  -- `json.Marshal` of an object
  pub marshal_object : O → Bytes × Error
  -- The object with the keys "gid", "name", "comment" and "lastlog".
  pub user_object : Gid → Bytes → Bytes → Bytes → O

-- `new(chat.Group)`
unfoldable pub new_group : Group
new_group = record { id = []; owner = none; name = []; comment = []; lastlog = [] }

module _ {U N : Type 0} where
  regroup : Node (World U N) → Outcome Rsp × Node U → Outcome Rsp × Node (World U N)
  regroup n (r, n') =
      (r, record { tokens = n'.tokens; world = record n.world { users = n'.world } })

  answer_after : Rsp → Outcome Rsp × Node (World U N) → Outcome Rsp × Node (World U N)
  answer_after rsp (ok _, n) = (ok rsp, n)
  answer_after rsp (err e, n) = (err e, n)
  answer_after rsp (panic, n) = (panic, n)

  abbrev pub in_net : N → Node (World U N) → Node (World U N)
  in_net net n = record n { world = record n.world { net = net } }

module _ {U N O : Type 0} where
  -- A function of the user service, which leaves the network alone.
  unfoldable pub on_users : RpcFn O U → RpcFn O (World U N)
  unfolding regroup
  on_users fn req n = regroup n (fn req (record { tokens = n.tokens; world = n.world.users }))

  unfoldable pub services_on_users : Services O U → Services O (World U N)
  unfolding on_users
  services_on_users [] = []
  services_on_users ((ns, api) ∷ rest) =
      (ns, map (λ (f : Bytes × RpcFn O U). (f.0, on_users f.1)) api) ∷ services_on_users rest

-- `FromJson`, whose group is never nil
from_json : Group × Error → Option Group × Error
from_json (g, e) = (some g, e)

module _ {O : Type 0} (json : GroupJson O) where
  -- `FromMap`, with what `json.Marshal` gives
  from_map : Bytes × Error → Option Group × Error
  unfolding from_json
  from_map (d, none) = from_json (json.from_json d)
  from_map (d, some e) = (none, some e)

  -- The group that a parameter holds, and the error of reading it. `FromMap` gives nil for an object
  -- that cannot be marshalled.
  unfoldable pub group_of : Param O → Option Group × Error
  unfolding from_map
  group_of (text j) = from_json (json.from_json j)
  group_of (object m) = from_map (json.marshal_object m)
  group_of other = (some new_group, none)

  -- The request that files the group in the address book.
  abbrev pub put_group : Group → Req O
  put_group g = record {
    id = [];
    token = [];
    method = [];
    params = object (json.user_object g.id g.name g.comment g.lastlog) ∷ [];
  }

module _ {U N O : Type 0} (json : GroupJson O) where
  -- The end of `Create`, with `getRpcFn("user_put")` and what `CreateGroup` gave: without a group in
  -- it, `grsp.Group.Id` panics.
  file_group : Option (RpcFn O (World U N)) → Option Group → Rsp → Exec (Node (World U N)) Rsp
  unfolding answer_after
  file_group none g rsp n = (ok rsp, n)
  file_group (some put_fn) none rsp n = (panic, n)
  file_group (some put_fn) (some g) rsp n = answer_after rsp (put_fn (put_group json g) n)

module _ {N : Type 0} (request : Bytes → Bytes → Bytes → Exec N Bytes) (codecs : GroupCodecs)
    (pubkey : Bytes) (myid : Jid) where
  -- `CreateGroup`: `genGroup` looks at the mailbox first, and then into the group.
  unfoldable pub create_group : Option Group → Exec N GroupRsp
  create_group (some g) n = gen_group request codecs pubkey myid g n
  create_group none n =
      if beq (mailid myid) [] then (err (codes "mailbox not found"), n) else (panic, n)

module _ {U N O : Type 0} (request : Bytes → Bytes → Bytes → Exec N Bytes) (codecs : GroupCodecs)
    (json : GroupJson O) (pubkey : Bytes) (myid : Jid) where
  group_created :
      Bytes
      → Option (RpcFn O (World U N))
      → Node (World U N)
      → Outcome GroupRsp × N
      → Outcome Rsp × Node (World U N)
  unfolding file_group
  group_created id put_fn n (ok grsp, net) =
      file_group json put_fn grsp.group (new_rsp id (created grsp) none) (in_net net n)
  group_created id put_fn n (err e, net) =
      file_group json put_fn none (failed id (codes "10001") e) (in_net net n)
  group_created id put_fn n (panic, net) = (panic, in_net net n)

  -- `Create`: the error of reading the group is overwritten by that of `CreateGroup`.
  unfoldable pub group_create : Option (RpcFn O (World U N)) → RpcFn O (World U N)
  unfolding group_created
  group_create put_fn req n = elim req.params [
    | [] ↦ (ok (failed req.id (codes "10000") (codes "group not nil")), n)
    | p ∷ _ ↦
        group_created req.id put_fn n
          (create_group request codecs pubkey myid (group_of json p).0 n.world.net)
  ]

  -- `APIs` of the group service, with the "user_put" that `getRpcFn` finds.
  abbrev pub group_apis : Option (RpcFn O (World U N)) → List (Bytes × RpcFn O (World U N))
  group_apis put_fn = (codes "create", group_create put_fn) ∷ []

  -- `startService`. `getRpcFn` finds "user_put" in the entry of the user service.
  unfoldable pub start_service : Services O U → Services O (World U N)
  start_service user_services =
      let users = services_on_users user_services in
      users ++ (codes "group", group_apis (get_rpc_fn users (codes "user_put"))) ∷ []
