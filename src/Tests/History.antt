-- ===== src/Tests/History.antt =====
-- The log of the group with its first two members, and the theorem on it.
use mathlib.Core.Path.{subst}
use go_achat_node.Prelude.{refl, [], ◌∷◌, codes, beq, Outcome}
use go_achat_node.Ldb.{new_table, ldb_database}
use go_achat_node.Group.{member_prefix, group_prefix, member_last_log_key}
use go_achat_node.Group.Members.{handle_member}
use go_achat_node.Group.Groups.{member_tab}
use go_achat_node.Group.Adding.{handle_member-add}
use go_achat_node.Group.History.{change_of, history_after, IsHistory}
use go_achat_node.Group.Recording.{handle_member-IsHistory}
use go_achat_node.Tests.Disk.{lookup}
use go_achat_node.Tests.Formats.{group_codecs, stored_formats}
use go_achat_node.Tests.Club.{club, ann, bob, tab, tab_laws, founded, with_ann, founded-IsRoster}

founded-IsHistory : IsHistory tab group_codecs club founded []
unfolding member_tab new_table ldb_database lookup member_prefix group_prefix member_last_log_key
    beq
founded-IsHistory = (tt, (_, refl))

with_ann-IsHistory : IsHistory tab group_codecs club with_ann (change_of (codes "u") ann ∷ [])
with_ann-IsHistory =
    let (added, _) =
      handle_member-add tab tab_laws group_codecs stored_formats ann (codes "u") founded [] refl
        (λ e. cc) refl founded-IsRoster in
    subst
      (λ (r : Outcome (Unit {0})).
        IsHistory tab group_codecs club with_ann (history_after (change_of (codes "u") ann) r []))
      added
      (handle_member-IsHistory tab tab_laws group_codecs stored_formats ann (codes "u") founded []
        refl founded-IsHistory)

handle_member-IsHistory_example :
    let (outcome, t) = handle_member tab group_codecs (codes "v") bob with_ann in
    IsHistory tab group_codecs club t
      (history_after (change_of (codes "v") bob) outcome (change_of (codes "u") ann ∷ []))
unfolding beq
handle_member-IsHistory_example =
    handle_member-IsHistory tab tab_laws group_codecs stored_formats bob (codes "v") with_ann
      (change_of (codes "u") ann ∷ []) refl with_ann-IsHistory
