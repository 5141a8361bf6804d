-- ===== src/App/Config.antt =====
-- main.go: the flags, the commands, and what `achat` makes of them. The p2p service is a parameter; what
-- is logged is left out.
use go_achat_node.Prelude.{
  ℕ, suc, ◌-◌, Bool, true, false, Option, none, some, List, [], ◌∷◌, Bytes, codes, beq,
  if◌then◌else◌, ℤ, pos, negsuc, ltb_ℤ, Error, Outcome, ok, panic,
}
use Prim.Native.Nat.{◌%◌, ◌^◌}
use go_achat_node.Types.{Jid, new_jid}
use mathlib.Core.Bool.{not}
use go_achat_node.Rpc.{split}

-- The variables that the flags fill, and `nodiscover` and `muxport`, which no flag does.
pub record Flags : Type 0 where
  pub homedir : Bytes
  pub bootnodes : Bytes
  pub pwd : Bytes
  pub mailbox : Bytes
  pub port : ℤ
  pub networkid : ℤ
  pub rpcport : ℤ
  pub muxport : ℤ
  pub nodiscover : Bool

-- What they are without arguments.
unfoldable pub default_flags : Flags
default_flags = record {
  homedir = codes "/tmp";
  bootnodes = [];
  pwd = [];
  mailbox = [];
  port = pos 24000;
  networkid = pos 1;
  rpcport = pos 9990;
  muxport = pos 0;
  nodiscover = false;
}

-- `alibp2p.Config`, without the context.
pub record Config : Type 0 where
  pub homedir : Bytes
  pub port : ℕ
  pub discover : Bool
  pub networkid : ℤ
  pub mux_port : Option ℤ
  pub loglevel : ℕ
  pub bootnodes : List Bytes
  pub relay : Bool

-- `DEFBOOTNODES`
unfoldable pub def_bootnodes : List Bytes
def_bootnodes =
    codes "/ip4/82.157.104.202/tcp/24000/p2p/16Uiu2HAmThtRghjg2k2fK1Zau5GW1svxrc2RXuNk5wwGnwA9juUT"
    ∷ codes "/ip4/39.105.35.133/tcp/24000/p2p/16Uiu2HAmUudavpi7V1FUxWoLhXTGJ4i38ZMhAuL2Tc9LPCz8EzZa"
    ∷ []

-- `uint64` of an `int`
unfoldable pub uint64 : ℤ → ℕ
uint64 (pos n) = n % 2 ^ 64
uint64 (negsuc n) = 2 ^ 64 - suc (n % 2 ^ 64)

-- The flag takes the place of the default list, and a node that does not discover has none.
bootnodes_of : Flags → List Bytes
bootnodes_of f =
    if f.nodiscover then [] else if beq f.bootnodes [] then def_bootnodes else split 44 f.bootnodes

-- The configuration that `achat` gives to the p2p service.
unfoldable pub config_of : Flags → Config
unfolding bootnodes_of
config_of f = record {
  homedir = f.homedir;
  port = uint64 f.port;
  discover = not f.nodiscover;
  networkid = f.networkid;
  mux_port = if ltb_ℤ (pos 0) f.muxport then some f.muxport else none;
  loglevel = 4;
  bootnodes = bootnodes_of f;
  relay = true;
}

-- The node that `achat` starts: the p2p service, the chat service with its one callback that logs,
-- and /rpc with its password and port.
pub record Started : Type 0 where
  pub config : Config
  pub myid : Jid
  pub pwd : Bytes
  pub rpcport : ℤ

-- The commands; `default_command` is the program without one.
pub data Command : Type 0 where
  default_command : Command
  attach : Command
  console : Command
  bootnode : Command

-- `my_id` is `Myid` of the p2p service with a configuration; its error is dropped.
module _ (my_id : Config → Bytes × Error) where
  abbrev pub starting : Flags → Started
  starting f = record {
    config = config_of f;
    myid = new_jid (my_id (config_of f)).0 f.mailbox;
    pwd = f.pwd;
    rpcport = f.rpcport;
  }

  -- `achat`
  unfoldable pub achat : Flags → Outcome Started
  achat f = if beq f.homedir [] then panic else ok (starting f)

  -- The node that a command starts, if it starts one.
  unfoldable pub node_of : Command → Flags → Option (Outcome Started)
  unfolding achat
  node_of default_command f = some (achat f)
  node_of attach f = none
  node_of console f = some (achat f)
  node_of bootnode f = some (achat (record f { nodiscover = true }))
