-- ===== src/Rpc/Users.antt =====
-- rpc/user.go: the address book. The JSON forms of a user are read by amino and encoding/json.
use go_achat_node.Prelude.{
  ◌&&◌, pos, none, some, List, [], ◌∷◌, Bytes, codes, beq, if◌then◌else◌, Outcome, ok, err, panic,
  Error, Exec,
}
use go_achat_node.Ldb.{Database}
use go_achat_node.Types.{peerid}
use go_achat_node.Types.Codecs.{Codec, to_bytes}
use go_achat_node.Group.Members.{decode}
use go_achat_node.Rpc.{
  Param, text, object, other, User, string, user, users, Rsp, new_rsp, failed, Services, Node,
  RpcFn,
}

pub record UserCodecs (O : Type 0) : Type 0 where
  pub stored : Codec User
  -- `amino.UnmarshalJSON`
  pub from_json : Bytes → User × Error
  -- `json.Marshal` of an object
  pub marshal_object : O → Bytes × Error

-- `User.FromBytes`
abbrev pub user_from_bytes : {O : Type 0} → UserCodecs O → Bytes → User × Error
user_from_bytes codecs data' = codecs.stored.unmarshal data'

-- `new(User)`
unfoldable pub new_user : User
new_user = record {
  name = [];
  icon = [];
  comment = [];
  id = [];
  age = pos 0;
  gender = pos 0;
  gid = [];
  lastlog = [];
}

module _ {O S : Type 0} (db : Database S) (codecs : UserCodecs O) where
  -- `put`
  unfoldable pub put_user : User → Exec S (Unit {0})
  put_user u s =
      if beq u.id []
      then if beq u.gid []
        then (err (codes "id can not be nil"), s)
        else db.put u.gid (to_bytes codecs.stored u) s
      else db.put (peerid u.id) (to_bytes codecs.stored u) s

  -- `get`
  unfoldable pub get_user : S → Bytes → Outcome User
  get_user s id = decode codecs.stored (db.get s id)

  keep_user : User × Error → List User → List User
  keep_user (m, none) sl = m ∷ sl
  keep_user (m, some e) sl = sl

  unfoldable pub read_users : List (Bytes × Bytes) → List User
  unfolding keep_user
  read_users [] = []
  read_users ((k, v) ∷ it) = let sl = read_users it in keep_user (user_from_bytes codecs v) sl

  -- `query`
  unfoldable pub query_users : S → List User
  query_users s = read_users (db.new_iterator s)

  -- `User.FromMap`, with what `json.Marshal` gives
  from_object : Bytes × Error → User × Error
  from_object (d, none) = codecs.from_json d
  from_object (d, some e) = (new_user, some e)

  -- The user that a parameter holds: a value that is no string and no object is an empty user.
  unfoldable pub user_of : Param O → User × Error
  unfolding from_object
  user_of (text j) = codecs.from_json j
  user_of (object m) = from_object (codecs.marshal_object m)
  user_of other = (new_user, none)

  abbrev in_world : S → Node S → Node S
  in_world s n = record n { world = s }

  -- The answer to a write, under the code of its error.
  unfoldable pub written : Bytes → Bytes → Outcome (Unit {0}) × S → Node S → Outcome Rsp × Node S
  written id code (ok _, s) n = (ok (new_rsp id (string (codes "success")) none), in_world s n)
  written id code (err e, s) n = (ok (failed id code e), in_world s n)
  written id code (panic, s) n = (panic, in_world s n)

  unfoldable pub put_parsed : Bytes → User × Error → Exec (Node S) Rsp
  unfolding written
  put_parsed id (u, some e) n = (ok (failed id (codes "10001") e), n)
  put_parsed id (u, none) n =
      if beq u.id [] && beq u.gid []
      then (ok (failed id (codes "10002") (codes "userid / groupid not nil")), n)
      else written id (codes "10003") (put_user u n.world) n

  -- `Put`
  unfoldable pub user_put : RpcFn O S
  unfolding put_parsed
  user_put req n = elim req.params [
    | [] ↦ (ok (failed req.id (codes "10000") (codes "user not nil")), n)
    | p ∷ _ ↦ put_parsed req.id (user_of p) n
  ]

  got : Bytes → Outcome User → Outcome Rsp
  got id (ok u) = ok (new_rsp id (user u) none)
  got id (err e) = ok (failed id (codes "20002") e)
  got id panic = panic

  get_param : Bytes → Param O → Exec (Node S) Rsp
  unfolding got
  get_param id (text key) n = (got id (get_user n.world key), n)
  get_param id _ n = (panic, n)

  -- `Get`
  unfoldable pub user_get : RpcFn O S
  unfolding get_param
  user_get req n = elim req.params [
    | [] ↦ (ok (failed req.id (codes "20001") (codes "userid / groupid not nil")), n)
    | p ∷ _ ↦ get_param req.id p n
  ]

  del_param : Bytes → Param O → Exec (Node S) Rsp
  unfolding written
  del_param id (text key) n = written id (codes "30002") (db.delete key n.world) n
  del_param id _ n = (panic, n)

  -- `Del`
  unfoldable pub user_del : RpcFn O S
  unfolding del_param
  user_del req n = elim req.params [
    | [] ↦ (ok (failed req.id (codes "30001") (codes "userid / groupid not nil")), n)
    | p ∷ _ ↦ del_param req.id p n
  ]

  -- `Query`
  unfoldable pub user_query : RpcFn O S
  user_query req n = (ok (new_rsp req.id (users (query_users n.world)) none), n)

  -- `APIs`, as `serviceReg` files it.
  unfoldable pub user_service : Services O S
  user_service =
      (
        codes "user",
        (codes "put", user_put)
            ∷ (codes "get", user_get)
            ∷ (codes "del", user_del)
            ∷ (codes "query", user_query)
            ∷ [],
      )
      ∷ []
