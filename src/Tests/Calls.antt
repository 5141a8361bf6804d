-- ===== src/Tests/Calls.antt =====
-- Requests to /rpc on an address book, and the theorems on them.
use go_achat_node.Prelude.{
  ◌≡◌, refl, none, some, List, [], ◌∷◌, Bytes, codes, beq, ℤ, pos, ok, Error,
}
use go_achat_node.Types.Codecs.{CodecLaws}
use go_achat_node.Rpc.{Param, text, Req, User, string, user, new_rsp, Node}
use mathlib.Core.List.Permᴰ
use go_achat_node.Rpc.Members.{Member, hash, hash-Perm}
use go_achat_node.Rpc.Users.{UserCodecs, user_of, user_put, user_get, user_service}
use go_achat_node.Rpc.Access.{Call, run, run-outsiders}
use go_achat_node.Rpc.Storing.{address, user_put-user_get}
use go_achat_node.Tests.Coder.{Coder, bytes, int, pair, codec, codec-CodecLaws}
use go_achat_node.Tests.Disk.{Disk, disk, disk-DatabaseLaws}

abbrev pub UserData : Type 0
UserData = ((Bytes × Bytes) × (Bytes × Bytes)) × ((ℤ × ℤ) × (Bytes × Bytes))

abbrev pub from_user : User → UserData
from_user u = (((u.name, u.icon), (u.comment, u.id)), ((u.age, u.gender), (u.gid, u.lastlog)))

abbrev pub to_user : UserData → User
to_user (((name, icon), (comment, id)), ((age, gender), (gid, lastlog))) = record {
  name = name;
  icon = icon;
  comment = comment;
  id = id;
  age = age;
  gender = gender;
  gid = gid;
  lastlog = lastlog;
}

unfoldable pub user_data : Coder UserData
user_data =
    pair (pair (pair bytes bytes) (pair bytes bytes)) (pair (pair int int) (pair bytes bytes))

abbrev named : Bytes → Bytes → User
named name id = record {
  name = name;
  icon = [];
  comment = [];
  id = id;
  age = pos 0;
  gender = pos 0;
  gid = [];
  lastlog = [];
}

-- The JSON text of a user is its name here, and there are no objects; an empty text is no JSON.
abbrev read_name : Bytes → User × Error
read_name [] = (named [] [], some (codes "EOF"))
read_name (b ∷ bs) = (named (b ∷ bs) (b ∷ bs), none)

abbrev pub user_codecs : UserCodecs Bytes
user_codecs = record {
  stored = codec user_data from_user to_user;
  from_json = read_name;
  marshal_object = λ o. (o, none);
}

pub user_format : CodecLaws user_codecs.stored (λ u. u)
user_format = codec-CodecLaws user_data from_user to_user (λ u. refl)

abbrev asked : Bytes → List (Param Bytes) → Req Bytes
asked method params = record {
  id = codes "7";
  token = codes "tok";
  method = method;
  params = params;
}

abbrev fresh : Node Disk
fresh = record { tokens = []; world = [] }

abbrev put_ann : Req Bytes
put_ann = asked (codes "user_put") (text (codes "ann") ∷ [])

abbrev get_of : Bytes → Req Bytes
get_of key = asked (codes "user_get") (text key ∷ [])

user_put-user_get_example :
    let (answer, n) = user_put disk user_codecs put_ann fresh in
    (answer ≡ ok (new_rsp (codes "7") (string (codes "success")) none))
    × (user_get disk user_codecs (get_of (address (named (codes "ann") (codes "ann")))) n
        ≡ (ok (new_rsp (codes "7") (user (named (codes "ann") (codes "ann"))) none), n))
unfolding user_of beq
user_put-user_get_example =
    user_put-user_get disk disk-DatabaseLaws user_codecs user_format (text (codes "ann")) put_ann
      (get_of (address (named (codes "ann") (codes "ann")))) fresh
      (named (codes "ann") (codes "ann")) refl refl refl refl

abbrev put_nothing : Req Bytes
put_nothing = asked (codes "user_put") []

abbrev ann : User
ann = named (codes "ann") (codes "ann")

abbrev bob : User
bob = named (codes "bob") (codes "bob")

abbrev login : Bytes → Req Bytes
login p = asked (codes "auth") (text p ∷ [])

abbrev intruder : List (Call Bytes)
intruder = (codes "tok", (pos 9, login (codes "guess"))) ∷ (codes "tok", (pos 9, put_ann)) ∷ []

run-outsiders_example :
    run (codes "secret") [] (user_service disk user_codecs) intruder fresh ≡ fresh
unfolding beq
run-outsiders_example =
    run-outsiders (codes "secret") [] (user_service disk user_codecs) intruder fresh refl refl
      (refl, (refl, tt))

abbrev ann_member : Member
ann_member = record { id = codes "ann"; name = codes "Ann" }

abbrev bob_member : Member
bob_member = record { id = codes "bob"; name = [] }

hash-Perm_example :
    (hash (λ b. b) (ann_member ∷ bob_member ∷ [])).0
    ≡ (hash (λ b. b) (bob_member ∷ ann_member ∷ [])).0
hash-Perm_example =
    hash-Perm (λ b. b) (ann_member ∷ bob_member ∷ []) (bob_member ∷ ann_member ∷ [])
      (Permᴰ.swap refl refl)
