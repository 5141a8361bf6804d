-- ===== src/Rpc/Conns.antt =====
-- rpc/server.go: "conns", the connections of the node, and `dedup`. The p2p service is a parameter:
-- `peers` is its `Peers`, `find_peer` its `Findpeer`. The order in which a Go map is ranged over is
-- any: `range` gives that of a set.
use go_achat_node.Prelude.{
  ℕ, none, List, [], ◌∷◌, Bytes, if◌then◌else◌, Outcome, ok, err, panic, Exec, pure, attempt, ◌>>=◌,
}
use go_achat_node.Mailbox.Cleaning.{contains}
use go_achat_node.Rpc.{Peerinfo, Network, network, Rsp, new_rsp, Node, RpcFn}

-- `set[str] = struct{}{}`
unfoldable pub insert : List Bytes → Bytes → List Bytes
insert set str = if contains set str then set else str ∷ set

unfoldable pub collected : List Bytes → List Bytes → List Bytes
unfolding insert
collected set [] = set
collected set (str ∷ arr) = collected (insert set str) arr

-- `dedup`
unfoldable pub dedup : (List Bytes → List Bytes) → List Bytes → List Bytes
unfolding collected
dedup range arr = range (collected [] arr)

module _ {N : Type 0} (find_peer : Bytes → Exec N (List Bytes)) where
  unfoldable pub add_info : Bytes → Outcome (List Bytes) → List Peerinfo → List Peerinfo
  add_info id (ok addrs) pis = record { id = id; addrs = addrs } ∷ pis
  add_info id _ pis = pis

  -- The peers that are found, with their addresses.
  unfoldable pub infos : List Bytes → Exec N (List Peerinfo)
  unfolding add_info
  infos [] = pure []
  infos (id ∷ ids) = do
    addrs ← attempt (find_peer id)
    pis ← infos ids
    pure (add_info id addrs pis)

  unfoldable pub relay_infos :
      (List Bytes → List Bytes) → List (Bytes × List Bytes) → Exec N (List (Bytes × List Peerinfo))
  unfolding infos
  relay_infos range [] = pure []
  relay_infos range ((rid, ids) ∷ relay) = do
    pis ← infos (dedup range ids)
    rpis ← relay_infos range relay
    pure ((rid, pis) ∷ rpis)

  unfoldable pub connected :
      (List Bytes → List Bytes) → (List Bytes × List (Bytes × List Bytes)) × ℕ → Exec N Network
  connected range ((direct, relay), total) = do
    dpis ← infos direct
    rpis ← relay_infos range relay
    pure (record { total = total; direct = dpis; relay = rpis })

  unfoldable pub answered : Bytes → Node N → Outcome Network × N → Outcome Rsp × Node N
  answered id n (ok entity, net) = (ok (new_rsp id (network entity) none), record n { world = net })
  answered id n (err e, net) = (err e, record n { world = net })
  answered id n (panic, net) = (panic, record n { world = net })

  -- The function "conns"
  unfoldable pub conns :
      {O : Type 0}
      → (N → (List Bytes × List (Bytes × List Bytes)) × ℕ)
      → (List Bytes → List Bytes)
      → RpcFn O N
  unfolding connected answered
  conns peers range req n = answered req.id n (connected range (peers n.world) n.world)
