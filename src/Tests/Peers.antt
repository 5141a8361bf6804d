-- ===== src/Tests/Peers.antt =====
-- Two peers and a mailbox, and the theorems on identifiers, keys and tables.
use go_achat_node.Prelude.{ℕ, zero, suc, List, [], ◌∷◌, ◌++◌, Bytes, codes, pos}
use go_achat_node.Types.{Jid, Message, new_normal_message}
use go_achat_node.Types.Sorting.{IsSorted, sort, sort-IsSorted}

abbrev pub id_of : ℕ → ℕ → Bytes
id_of zero b = []
id_of (suc n) b = b ∷ id_of n b

abbrev pub eve_id : Bytes
eve_id = id_of 53 101

abbrev pub box_id : Bytes
box_id = id_of 53 98

-- eve has a mailbox, zoe has none.
abbrev pub eve : Jid
eve = eve_id ++ box_id

abbrev pub zoe : Jid
zoe = id_of 53 122

abbrev pub hello : Message
hello = new_normal_message (codes "m1") (pos 7) zoe eve (codes "hello") []

sort-IsSorted_example : IsSorted (sort (hello ∷ hello ∷ []))
sort-IsSorted_example = sort-IsSorted (hello ∷ hello ∷ [])

abbrev two_pairs : List (Bytes × Bytes)
two_pairs = (codes "a", codes "one") ∷ (codes "b", codes "two") ∷ []
