-- ===== src/Rpc/Filing.antt =====
-- /rpc on a node with both services: a group that is created goes into the address book.
use go_achat_node.Prelude.{
  ◌≡◌, refl, ◌∙◌, inl, inr, true, false, ◌&&◌, Option, Option-cases, none, some, List, [], ◌∷◌,
  Bytes, codes, beq, pos, ltb_ℤ, ok, err, panic, Error, Exec,
}
use go_achat_node.Ldb.{Database}
use go_achat_node.Ldb.Laws.{DatabaseLaws}
use go_achat_node.Types.{Jid, mailid}
use go_achat_node.Types.Codecs.{CodecLaws}
use go_achat_node.Group.{Group, GroupRsp, GroupCodecs}
use go_achat_node.Group.Service.{gen_group}
use go_achat_node.Rpc.{
  Param, text, object, Req, User, created, user, new_rsp, failed, Node, RpcFn, Services, method_of,
  rpc_fn_of, split, cons_first, get_rpc_fn, issued, find, handle_rpc, call,
}
use go_achat_node.Rpc.Users.{UserCodecs, user_service, user_put, user_get, user_of}
use go_achat_node.Rpc.Groups.{
  World, put_group, GroupJson, on_users, group_of, group_create, create_group, start_service,
  services_on_users, in_net,
}
use go_achat_node.Rpc.Storing.{address, kept, user_put-eq, user_get-kept}

module _ {U N O : Type 0} (db : Database U) (codecs : UserCodecs O)
    (request : Bytes → Bytes → Bytes → Exec N Bytes) (group_codecs : GroupCodecs)
    (json : GroupJson O) (pubkey : Bytes) (myid : Jid) where
  abbrev pub services : Services O (World U N)
  services = start_service request group_codecs json pubkey myid (user_service db codecs)

module _ {U N O : Type 0} (fn_reg : List (Bytes × RpcFn O (World U N))) where
  -- A request with a valid token, for a method that is not one of the functions of rpc/server.go.
  abbrev pub IsServed : Req O → Bytes → Node (World U N) → Type 0
  IsServed req method n =
      (req.method ≡ method)
      × (find fn_reg method ≡ none)
      × (ltb_ℤ (pos 0) (issued n.tokens req.token) ≡ true)

module _ {U N O : Type 0} (db : Database U) (codecs : UserCodecs O)
    (request : Bytes → Bytes → Bytes → Exec N Bytes) (group_codecs : GroupCodecs)
    (json : GroupJson O) (pubkey : Bytes) (myid : Jid)
    (fn_reg : List (Bytes × RpcFn O (World U N))) where
  served :
      (req : Req O) (method : Bytes) (n : Node (World U N)) {fn : RpcFn O (World U N)}
      → beq method (codes "auth") ≡ false
      → get_rpc_fn (services db codecs request group_codecs json pubkey myid) method ≡ some fn
      → IsServed fn_reg req method n
      → handle_rpc fn_reg (services db codecs request group_codecs json pubkey myid) req n
        ≡ fn req n
  unfolding handle_rpc call
  served req method n other found (is, free, valid) =
      rw is (rw other (rw valid (rw (free, found, call) refl)))

  create_served :
      (req : Req O) (n : Node (World U N))
      → IsServed fn_reg req (codes "group_create") n
      → handle_rpc fn_reg (services db codecs request group_codecs json pubkey myid) req n
        ≡ group_create request group_codecs json pubkey myid
            (some (on_users (user_put db codecs)))
            req
            n
  unfolding get_rpc_fn rpc_fn_of split cons_first method_of find beq start_service services_on_users
      user_service
  create_served req n h = served req (codes "group_create") n refl refl h

  get_served :
      (req : Req O) (n : Node (World U N))
      → IsServed fn_reg req (codes "user_get") n
      → handle_rpc fn_reg (services db codecs request group_codecs json pubkey myid) req n
        ≡ on_users (user_get db codecs) req n
  unfolding get_rpc_fn rpc_fn_of split cons_first method_of find beq start_service services_on_users
      user_service
  get_served req n h = served req (codes "user_get") n refl refl h

  -- Where `CreateGroup` returns an error, a group_create request with a parameter and a valid token is
  -- not answered with that error: the handler panics.
  pub group_create_panics :
      (req : Req O) (n : Node (World U N)) (p : Param O) (ps : List (Param O)) (net : N) {e : Bytes}
      → IsServed fn_reg req (codes "group_create") n
      → req.params ≡ p ∷ ps
      → create_group request group_codecs pubkey myid (group_of json p).0 n.world.net ≡ (err e, net)
      → handle_rpc fn_reg (services db codecs request group_codecs json pubkey myid) req n
        ≡ (panic, in_net net n)
  unfolding group_create
  group_create_panics req n p ps net ok_req params failed =
      create_served req n ok_req ∙ rw params (rw failed refl)

  -- A node without a mailbox: whatever the parameter, group_create panics.
  pub group_create_without_mailbox :
      (req : Req O) (n : Node (World U N)) (p : Param O) (ps : List (Param O))
      → IsServed fn_reg req (codes "group_create") n
      → req.params ≡ p ∷ ps
      → beq (mailid myid) [] ≡ true
      → handle_rpc fn_reg (services db codecs request group_codecs json pubkey myid) req n
        ≡ (panic, n)
  unfolding create_group gen_group
  group_create_without_mailbox req n p ps ok_req params homeless =
      elim (Option-cases (group_of json p).0) [
        | inl e ↦
            group_create_panics req n p ps n.world.net {e = codes "mailbox not found"} ok_req params
              (rw e (rw homeless refl))
        | inr (g, e) ↦
            group_create_panics req n p ps n.world.net {e = codes "mailbox not found"} ok_req params
              (rw e (rw homeless refl))
      ]

module _ {U N O : Type 0} (db : Database U) (laws : DatabaseLaws db) (codecs : UserCodecs O)
    (format : CodecLaws codecs.stored (λ u. u)) (request : Bytes → Bytes → Bytes → Exec N Bytes)
    (group_codecs : GroupCodecs) (json : GroupJson O) (pubkey : Bytes) (myid : Jid)
    (fn_reg : List (Bytes × RpcFn O (World U N))) where
  created_state : User → N → Node (World U N) → Node (World U N)
  created_state u net n = record n {
    world = record { users = kept db laws codecs format u n.world.users; net = net };
  }

  group_create-filed :
      (req : Req O) (n : Node (World U N)) (p : Param O) (ps : List (Param O)) (net : N) (u : User)
      {g : Option Group} {e : Error} {grsp : GroupRsp} {g' : Group}
      → req.params ≡ p ∷ ps
      → group_of json p ≡ (g, e)
      → create_group request group_codecs pubkey myid g n.world.net ≡ (ok grsp, net)
      → grsp.group ≡ some g'
      → user_of db codecs (object (json.user_object g'.id g'.name g'.comment g'.lastlog))
        ≡ (u, none)
      → (beq u.id [] && beq u.gid []) ≡ false
      → group_create request group_codecs json pubkey myid
          (some (on_users (user_put db codecs)))
          req
          n
        ≡ (ok (new_rsp req.id (created grsp) none), created_state u net n)
  unfolding group_create on_users created_state
  group_create-filed req n p ps net u {g} {e} {grsp} {g'} params parsed made filed shown named =
      rw (params, parsed)
        (rw made (
          rw filed (
            rw (user_put-eq db laws codecs format _ (put_group json g') _ u refl shown named)
              refl)))

  -- A group_create request with a valid token is answered with the group that `CreateGroup` gives for
  -- what was read of the first parameter, whatever the error of reading it; the user_get request that
  -- follows, with the key of the user that user_put reads from the group's id, name, comment and last
  -- log, is answered with that user. `CreateGroup` succeeds with a group, the user has an id or a
  -- group id, and neither method is a function of rpc/server.go.
  pub group_create-user_get :
      (req ask : Req O) (n : Node (World U N)) (p : Param O) (ps : List (Param O)) (net : N)
      (u : User) {g : Option Group} {e : Error} {grsp : GroupRsp} {g' : Group}
      → IsServed fn_reg req (codes "group_create") n
      → IsServed fn_reg ask (codes "user_get") n
      → req.params ≡ p ∷ ps
      → group_of json p ≡ (g, e)
      → create_group request group_codecs pubkey myid g n.world.net ≡ (ok grsp, net)
      → grsp.group ≡ some g'
      → user_of db codecs (object (json.user_object g'.id g'.name g'.comment g'.lastlog))
        ≡ (u, none)
      → (beq u.id [] && beq u.gid []) ≡ false
      → ask.params ≡ text (address u) ∷ []
      → let (answer, n') =
          handle_rpc fn_reg (services db codecs request group_codecs json pubkey myid) req n in
        (answer ≡ ok (new_rsp req.id (created grsp) none))
        × (handle_rpc fn_reg (services db codecs request group_codecs json pubkey myid) ask n'
            ≡ (ok (new_rsp ask.id (user u) none), n'))
  unfolding on_users created_state
  group_create-user_get req ask n p ps net u ok_req ok_ask params parsed made filed shown named
        key =
      let there : handle_rpc fn_reg (services db codecs request group_codecs json pubkey myid) req n
          ≡ (ok (new_rsp req.id (created _) none), created_state u net n) =
        create_served db codecs request group_codecs json pubkey myid fn_reg req n ok_req
        ∙ group_create-filed req n p ps net u params parsed made filed shown named in
      rw there (
        refl,
        get_served db codecs request group_codecs json pubkey myid fn_reg ask
              (created_state u net n) ok_ask
            ∙ rw
                (user_get-kept db laws codecs format ask
                  (record { tokens = n.tokens; world = n.world.users }) u key)
                refl,
      )
