-- ===== src/Rpc.antt =====
-- rpc/types.go and rpc/server.go: requests, responses, tokens and the dispatch of /rpc. JSON
-- objects are a parameter type `O`; sha1, the clock and the JSON coding are not in the repository.
pub mod Users
pub mod Access
pub mod Routing
pub mod Storing
pub mod Groups
pub mod Creating
pub mod Filing
pub mod Sessions
pub mod Opening
pub mod Conns
pub mod Listing
pub mod Members
pub mod Wire
pub mod Sending
use go_achat_node.Prelude.{
  ℕ, Bool, true, false, ◌&&◌, ◌||◌, Option, none, some, List, [], ◌∷◌, ◌++◌, Bytes, codes, beq,
  ◌==◌, if◌then◌else◌, ℤ, pos, ltb_ℤ, Outcome, ok, err, panic, Exec, pure, attempt,
}
use go_achat_node.Types.{Jid, Gid, Message, new_normal_message}
use go_achat_node.Group.{GroupRsp}

-- A parameter: a string, an object, or anything else that JSON decodes to.
pub data Param (O : Type 0) : Type 0 where
  text : Bytes → Param O
  object : O → Param O
  other : Param O

pub record Req (O : Type 0) : Type 0 where
  pub id : Bytes
  pub token : Bytes
  pub method : Bytes
  pub params : List (Param O)

pub record RspError : Type 0 where
  pub code : Bytes
  pub message : Bytes

pub record User : Type 0 where
  pub name : Bytes
  pub icon : Bytes
  pub comment : Bytes
  pub id : Jid
  pub age : ℤ
  pub gender : ℤ
  pub gid : Gid
  pub lastlog : Bytes

pub record Peerinfo : Type 0 where
  pub id : Bytes
  pub addrs : List Bytes

-- The `entity` of "conns", without the time that it took.
pub record Network : Type 0 where
  pub total : ℕ
  pub direct : List Peerinfo
  pub relay : List (Bytes × List Peerinfo)

-- What the modelled functions put into `Rsp.Result`.
pub data Result : Type 0 where
  nil : Result
  string : Bytes → Result
  user : User → Result
  users : List User → Result
  created : GroupRsp → Result
  network : Network → Result

pub record Rsp : Type 0 where
  pub result : Result
  pub error : Option RspError
  pub id : Bytes

-- `NewRsp`
unfoldable pub new_rsp : Bytes → Result → Option RspError → Rsp
new_rsp id result (some e) = record { result = nil; error = some e; id = id }
new_rsp id result none = record { result = result; error = none; id = id }

abbrev pub failed : Bytes → Bytes → Bytes → Rsp
failed id code message = new_rsp id nil (some (record { code = code; message = message }))

-- `tokenmap`: the newest entry of a token counts, and a missing one reads as 0.
abbrev pub Tokens : Type 0
Tokens = List (Bytes × ℤ)

unfoldable pub issued : Tokens → Bytes → ℤ
issued [] token = pos 0
issued ((t, at) ∷ tokens) token = if beq t token then at else issued tokens token

-- The process: its tokens, and what the services act on.
pub record Node (S : Type 0) : Type 0 where
  pub tokens : Tokens
  pub world : S

abbrev pub RpcFn : Type 0 → Type 0 → Type 0
RpcFn O S = Req O → Exec (Node S) Rsp

-- `servicemap` with the `API` of each service.
abbrev pub Services : Type 0 → Type 0 → Type 0
Services O S = List (Bytes × List (Bytes × RpcFn O S))

unfoldable pub find : {A : Type 0} → List (Bytes × A) → Bytes → Option A
find [] name = none
find ((n, a) ∷ rest) name = if beq n name then some a else find rest name

cons_first : ℕ → List Bytes → List Bytes
cons_first b [] = (b ∷ []) ∷ []
cons_first b (p ∷ ps) = (b ∷ p) ∷ ps

-- `strings.Split` at one byte
unfoldable pub split : ℕ → Bytes → List Bytes
unfolding cons_first
split sep [] = [] ∷ []
split sep (b ∷ bs) = let rest = split sep bs in if b == sep then [] ∷ rest else cons_first b rest

abbrev pub is_password : {O : Type 0} → Bytes → List (Param O) → Bool
is_password pwd (text p ∷ []) = beq p pwd
is_password pwd _ = false

module _ {O S : Type 0} where
  -- The function of a service.
  unfoldable pub method_of : Services O S → Bytes → Bytes → Option (RpcFn O S)
  method_of services ns fn = elim (find services ns) [ some api ↦ find api fn | none ↦ none ]

  rpc_fn_of : Services O S → List Bytes → Option (RpcFn O S)
  rpc_fn_of services (ns ∷ fn ∷ []) = method_of services ns fn
  rpc_fn_of services _ = none

  -- `getRpcFn`
  unfoldable pub get_rpc_fn : Services O S → Bytes → Option (RpcFn O S)
  unfolding rpc_fn_of
  get_rpc_fn services method = rpc_fn_of services (split 95 method)

  -- The function "auth", with the token that sha1 gives and the time of day.
  unfoldable pub auth : Bytes → Bytes → ℤ → RpcFn O S
  auth pwd token now req n =
      if beq pwd [] || is_password pwd req.params
      then (ok (new_rsp req.id (string token) none), record n { tokens = (token, now) ∷ n.tokens })
      else (ok (failed req.id (codes "1002") (codes "auth_fail")), n)

  -- The handler of /rpc behind the token check.
  unfoldable pub call : List (Bytes × RpcFn O S) → Services O S → RpcFn O S
  call fn_reg services req n = elim (find fn_reg req.method) [
    | some fn ↦ fn req n
    | none ↦ (elim (get_rpc_fn services req.method) [
      | some fn ↦ fn req n
      | none ↦ (ok (failed req.id (codes "1003") (codes "method_not_support")), n)
    ])
  ]

  -- The handler of /rpc.
  unfoldable pub handle_rpc : List (Bytes × RpcFn O S) → Services O S → RpcFn O S
  unfolding call
  handle_rpc fn_reg services req n =
      if beq req.method (codes "auth")
      then call fn_reg services req n
      else if ltb_ℤ (pos 0) (issued n.tokens req.token)
      then call fn_reg services req n
      else (ok (failed req.id (codes "1001") (codes "error token , please relogin .")), n)

-- `X2Str`: a parameter that is not a string is an error.
unfoldable pub x2str : {O : Type 0} → List (Param O) → Outcome (List Bytes)
x2str [] = ok []
x2str (text s ∷ il) = elim (x2str il) [ ok r ↦ ok (s ∷ r) | err e ↦ err e | panic ↦ panic ]
x2str (_ ∷ il) = err (codes "item not str")

-- `strings.Join` with a blank
unfoldable pub join : List Bytes → Bytes
join [] = []
join (s ∷ []) = s
join (s ∷ s' ∷ l) = s ++ codes " " ++ join (s' ∷ l)

sent : {S : Type 0} → Bytes → Outcome (Unit {0}) × S → Tokens → Outcome Rsp × Node S
sent id (ok _, s) tokens =
    (ok (new_rsp id (string (codes "success")) none), record { tokens = tokens; world = s })
sent id (err e, s) tokens = (ok (failed id (codes "1003") e), record { tokens = tokens; world = s })
sent id (panic, s) tokens = (panic, record { tokens = tokens; world = s })

module _ {O S : Type 0} (send : Message → Exec S (Unit {0})) (myid : Jid) where
  send_text : Bytes → ℤ → Bytes → Param O → Outcome (List Bytes) → Exec (Node S) Rsp
  unfolding sent
  send_text uuid now id to (err e) n = (ok (failed id (codes "1003") e), n)
  send_text uuid now id (text to) (ok c) n =
      sent id (send (new_normal_message uuid now myid to (join c) []) n.world) n.tokens
  send_text uuid now id _ _ n = (panic, n)

  -- The function "sendmsg"; `send` is `ChatService.SendMsg`.
  unfoldable pub sendmsg : Bytes → ℤ → RpcFn O S
  unfolding send_text
  sendmsg uuid now req n = elim req.params [
    | [] ↦ (panic, n)
    | to ∷ words ↦ send_text uuid now req.id to (x2str words) n
  ]

-- The function "myid"
unfoldable pub my_id : {O S : Type 0} → Jid → RpcFn O S
my_id myid req n = (ok (new_rsp req.id (string myid) none), n)
