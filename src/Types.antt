-- ===== src/Types.antt =====
-- types.go: identifiers, messages and their constructors. A Go string is a list of bytes.
-- go-amino and the uuid package are not in the repository: a `Codec` stands for amino at one
-- type, and a new uuid and the time of day are arguments.
pub mod Codecs
pub mod Jid
pub mod Sorting
use go_achat_node.Prelude.{
  ℕ, ◌*◌, Bool, List, [], ◌∷◌, ◌++◌, Bytes, beq, codes, length, take, drop, ltb, if◌then◌else◌, ℤ,
  pos, ltb_ℤ, eqb_ℤ,
}

abbrev pub Jid : Type 0
Jid = Bytes

abbrev pub Gid : Type 0
Gid = Bytes

-- `MsgType` is an `int`: what is decoded may hold any.
abbrev pub MsgType : Type 0
MsgType = ℤ

abbrev pub normal_msg : MsgType
normal_msg = pos 1

abbrev pub group_msg : MsgType
group_msg = pos 2

abbrev pub sync_msg : MsgType
sync_msg = pos 3

abbrev pub sys_msg : MsgType
sys_msg = pos 4

abbrev pub no_ack : ℕ
no_ack = 0

-- `MAX_PKG`
abbrev pub max_pkg : ℕ
max_pkg = 2048

pub record Envelope : Type 0 where
  pub id : Bytes
  pub sender : Jid
  pub to : Jid
  pub type : MsgType
  pub ack : ℕ
  pub ct : ℤ
  pub gid : Jid

pub record Attr : Type 0 where
  pub key : Bytes
  pub val : Bytes

pub record Payload : Type 0 where
  pub attrs : List Attr
  pub content : Bytes

pub record Message : Type 0 where
  pub envelope : Envelope
  pub payload : Payload
  pub vsn : Bytes

abbrev pub MessageList : Type 0
MessageList = List Message

pub record MessageBag : Type 0 where
  pub messages : MessageList

pub record CleanMsg : Type 0 where
  pub jid : Jid
  pub ids : List Bytes

-- `Less`
unfoldable pub less : Message → Message → Bool
less m n = ltb_ℤ m.envelope.ct n.envelope.ct

-- `NewJID`
unfoldable pub new_jid : Bytes → Bytes → Jid
new_jid id mailbox = if beq mailbox [] then id else id ++ mailbox

-- `Peerid`
unfoldable pub peerid : Jid → Bytes
peerid i = if ltb (length i) 53 then [] else take 53 i

-- `Mailid`: the slice i[53:106]
unfoldable pub mailid : Jid → Bytes
mailid i = if ltb (length i) (53 * 2) then [] else take 53 (drop 53 i)

-- `newMessage`, with the uuid that it draws and the Unix time that it reads
unfoldable pub new_message : Bytes → ℤ → Jid → Jid → Bytes → Bytes → MsgType → List Attr → Message
new_message uuid now sender to id content mt attr = record {
  envelope = record {
    id = if beq id [] then uuid else id;
    sender = sender;
    to = to;
    type = mt;
    ack = no_ack;
    ct = now;
    gid = [];
  };
  payload = record { attrs = attr; content = content };
  vsn = codes "0.0.2";
}

unfoldable pub new_normal_message : Bytes → ℤ → Jid → Jid → Bytes → List Attr → Message
new_normal_message uuid now sender to content attr =
    new_message uuid now sender to [] content normal_msg attr

unfoldable pub new_sys_message : Bytes → ℤ → Bytes → List Attr → Message
new_sys_message uuid now id attr = new_message uuid now [] [] id [] sys_msg attr
