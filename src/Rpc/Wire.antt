-- ===== src/Rpc/Wire.antt =====
-- rpc/types.go: `NewReq` and the JSON of requests and responses; rpc/server.go: /rpc from the body of
-- the HTTP request to that of its answer. encoding/json is a parameter.
use go_achat_node.Prelude.{
  Option, none, some, List, [], ◌∷◌, map, Bytes, Outcome, ok, err, panic, Error, Exec,
}
use go_achat_node.Rpc.{Param, text, object, Req, Rsp, Node, RpcFn, Services, join, handle_rpc}

pub record RpcJson (O : Type 0) : Type 0 where
  pub marshal_req : Req O → Bytes × Error
  pub unmarshal_req : Bytes → Req O × Error
  pub marshal_rsp : Rsp → Bytes × Error
  pub unmarshal_rsp : Bytes → Rsp × Error
  -- `json.Unmarshal` into a map, where it returns no error
  pub to_map : Bytes → Option O

-- `Str2X`
abbrev pub str2x : {O : Type 0} → List Bytes → List (Param O)
str2x sl = map text sl

-- The strings of a list, if it has nothing else.
unfoldable pub strings : {O : Type 0} → List (Param O) → Option (List Bytes)
strings [] = some []
strings (text s ∷ a) = elim (strings a) [ some rest ↦ some (s ∷ rest) | none ↦ none ]
strings (_ ∷ a) = none

module _ {O : Type 0} (json : RpcJson O) where
  -- `adapt`: parameters that together are the text of a JSON object become that object.
  unfoldable pub adapt : List (Param O) → Option O
  unfolding strings
  adapt p = elim (strings p) [ some words ↦ json.to_map (join words) | none ↦ none ]

  -- `NewReq`, with the uuid that it draws
  unfoldable pub new_req : Bytes → Bytes → Bytes → List (Param O) → Req O
  unfolding adapt
  new_req uuid token m p = elim (adapt p) [
    | some d ↦ (record { id = uuid; token = token; method = m; params = object d ∷ [] })
    | none ↦ (record { id = uuid; token = token; method = m; params = p })
  ]

  written : {S : Type 0} → Outcome Rsp × Node S → Outcome Bytes × Node S
  written (ok rsp, n) = (ok (json.marshal_rsp rsp).0, n)
  written (err e, n) = (err e, n)
  written (panic, n) = (panic, n)

  -- /rpc: a body that is no request is answered like the request that was read of it.
  unfoldable pub serve_rpc :
      {S : Type 0} → List (Bytes × RpcFn O S) → Services O S → Bytes → Exec (Node S) Bytes
  unfolding written
  serve_rpc fn_reg services data' n =
      written (handle_rpc fn_reg services (json.unmarshal_req data').0 n)
