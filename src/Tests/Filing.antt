-- ===== src/Tests/Filing.antt =====
-- A node with both services that is asked for a group, and the theorems on that.
use go_achat_node.Prelude.{
  ◌≡◌, refl, none, some, List, [], ◌∷◌, Bytes, codes, beq, pos, ok, err, panic, Exec,
}
use go_achat_node.Types.{mailid}
use go_achat_node.Types.Codecs.{CodecLaws}
use go_achat_node.Group.{GroupRsp}
use go_achat_node.Group.Service.{gen_group}
use go_achat_node.Rpc.{
  Param, text, Req, User, user, created, new_rsp, Node, find, issued, handle_rpc,
}
use go_achat_node.Rpc.Users.{UserCodecs, new_user, user_of}
use go_achat_node.Rpc.Groups.{World, GroupJson, group_of, create_group, in_net}
use go_achat_node.Rpc.Storing.{address}
use go_achat_node.Rpc.Filing.{services, group_create-user_get, group_create_panics}
use go_achat_node.Tests.Coder.{codec}
use go_achat_node.Tests.Disk.{Disk, disk, disk-DatabaseLaws}
use go_achat_node.Tests.Formats.{group_codecs, stored_formats, sent_formats}
use go_achat_node.Tests.Peers.{eve}
use go_achat_node.Tests.Club.{club, club_group}
use go_achat_node.Tests.Calls.{user_codecs, user_format}

-- The JSON object of a user is its group's id here, and the group is read with an error.
abbrev club_user : User
club_user = record new_user { gid = club }

abbrev codecs : UserCodecs Bytes
codecs = record user_codecs { from_json = λ j. (record new_user { gid = j }, none) }

abbrev json : GroupJson Bytes
json = record {
  from_json = λ j. (club_group, some (codes "EOF"));
  marshal_object = λ o. (o, none);
  user_object = λ gid name comment lastlog. gid;
}

-- A mailbox that answers with the group, and one that cannot be reached.
abbrev answer : GroupRsp
answer = record { group = some club_group; error = [] }

unfoldable request : Bytes → Bytes → Bytes → Exec Disk Bytes
request peer pid input s = (ok (CodecLaws.image sent_formats.group_rsp answer), s)

unfoldable away : Bytes → Bytes → Bytes → Exec Disk Bytes
away peer pid input s = (err (codes "unreachable"), s)

abbrev asked : Bytes → List (Param Bytes) → Req Bytes
asked method params = record {
  id = codes "7";
  token = codes "tok";
  method = method;
  params = params;
}

abbrev node : Node (World Disk Disk)
node = record { tokens = (codes "tok", pos 9) ∷ []; world = record { users = []; net = [] } }

abbrev create_club : Req Bytes
create_club = asked (codes "group_create") (text (codes "club") ∷ [])

abbrev get_club : Req Bytes
get_club = asked (codes "user_get") (text (address club_user) ∷ [])

club_made : create_group request group_codecs [] eve (some club_group) [] ≡ (ok answer, [])
unfolding create_group gen_group request mailid beq
club_made =
    rw (CodecLaws.marshal_eq stored_formats.group club_group)
      (rw (CodecLaws.unmarshal-image sent_formats.group_rsp answer) refl)

group_create-user_get_example :
    let (answered, n) =
      handle_rpc [] (services disk codecs request group_codecs json [] eve) create_club node in
    (answered ≡ ok (new_rsp (codes "7") (created answer) none))
    × (handle_rpc [] (services disk codecs request group_codecs json [] eve) get_club n
        ≡ (ok (new_rsp (codes "7") (user club_user) none), n))
unfolding find issued beq group_of user_of new_user
group_create-user_get_example =
    group_create-user_get disk disk-DatabaseLaws codecs user_format request group_codecs json [] eve
      [] create_club get_club node (text (codes "club")) [] [] club_user (refl, refl, refl)
      (refl, refl, refl) refl refl club_made refl refl refl refl

group_create_panics_example :
    handle_rpc [] (services disk codecs away group_codecs json [] eve) create_club node
    ≡ (panic, in_net [] node)
unfolding find issued beq create_group gen_group away mailid group_of group_codecs codec
group_create_panics_example =
    group_create_panics disk codecs away group_codecs json [] eve [] create_club node
      (text (codes "club")) [] [] (refl, refl, refl) refl refl
