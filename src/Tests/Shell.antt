-- ===== src/Tests/Shell.antt =====
-- A console in which some lines are typed, and the theorems on its goroutines.
use mathlib.Core.List.{Permᴰ}
use go_achat_node.Prelude.{
  ◌≡◌, ◌⊎◌, arith, refl, true, false, none, some, [], ◌∷◌, Bytes, codes, beq,
}
use go_achat_node.Rpc.{Req, split}
use go_achat_node.App.Console.{enqueue, label, is_method, trim, console_line, obey, open_target}
use go_achat_node.App.Chatting.{IsTalk}
use go_achat_node.App.Shell.{Shell, attached, turn, Reach, here, next}
use go_achat_node.App.Shell.Counting.{lines_of, Reach-Perm}
use go_achat_node.App.Shell.Settling.{IsSettled}
use go_achat_node.App.Shell.Racing.{
  IsOpening, asks, console-overtakes, console-misdirects, console-loses,
}
use go_achat_node.Tests.Json.{json}

abbrev hello : Bytes → Req Bytes
hello = asks json (codes "tok") (codes "2") (codes "hello") []

-- A session with bob is opened, and a line typed in it.
abbrev typed_one : Shell Bytes
typed_one = record attached { target_id = codes "bob-id"; waiting = hello ∷ []; typed = hello ∷ [] }

Reach-typed_one : Reach json (codes "tok") typed_one
unfolding label console_line obey open_target trim split beq is_method
Reach-typed_one =
    next
      (next here (
        turn attached (codes "1") (codes "opensession bob-id") _ none (codes "bob-id") refl refl
          refl))
      (turn _ (codes "2") (codes "hello") _ (some (enqueue hello)) (codes "bob-id") refl refl refl)

Reach-Perm_example :
    Permᴰ (lines_of typed_one) typed_one.typed
    × ((typed_one.stopped ≡ true) ⊎ (typed_one.dropped ≡ []))
Reach-Perm_example = Reach-Perm json (codes "tok") Reach-typed_one

-- The request is handed to the write loop.
abbrev calling_one : Shell Bytes
calling_one = record typed_one { waiting = []; calling = some (hello, codes "bob-id") }

bob_opens : IsOpening (codes "opensession bob-id") (codes "bob-id")
unfolding trim split beq
bob_opens = (refl, refl, omega arith)

eve_opens : IsOpening (codes "opensession eve-id") (codes "eve-id")
unfolding trim split beq
eve_opens = (refl, refl, omega arith)

one_talks : IsTalk (codes "one") (codes "one") []
unfolding trim split beq is_method
one_talks = (refl, refl, refl, refl, refl, refl)

two_talks : IsTalk (codes "two") (codes "two") []
unfolding trim split beq is_method
two_talks = (refl, refl, refl, refl, refl, refl)

abbrev one : Bytes → Req Bytes
one = asks json (codes "tok") (codes "2") (codes "one") []

abbrev two : Bytes → Req Bytes
two = asks json (codes "tok") (codes "3") (codes "two") []

console-overtakes_example :
    (s : Shell Bytes) × Reach json (codes "tok") s
    × (s.typed ≡ one ∷ two ∷ [])
    × (s.answered ≡ (two, codes "bob-id") ∷ (one, codes "bob-id") ∷ [])
    × IsSettled s
console-overtakes_example =
    console-overtakes json (codes "tok") (codes "1") (codes "2") (codes "opensession bob-id")
      (codes "bob-id") (codes "one") (codes "one") [] bob_opens one_talks (codes "3") (codes "two")
      (codes "two") [] two_talks

console-misdirects_example :
    (s : Shell Bytes) × Reach json (codes "tok") s
    × (s.typed ≡ one ∷ [])
    × (s.answered ≡ (one, codes "eve-id") ∷ [])
console-misdirects_example =
    console-misdirects json (codes "tok") (codes "1") (codes "2") (codes "opensession bob-id")
      (codes "bob-id") (codes "one") (codes "one") [] bob_opens one_talks (codes "3")
      (codes "opensession eve-id") (codes "eve-id") eve_opens

console-loses_example :
    (s : Shell Bytes) × Reach json (codes "tok") s
    × (s.typed ≡ one ∷ [])
    × (s.answered ≡ [])
    × (s.writing ≡ false)
    × IsSettled s
console-loses_example =
    console-loses json (codes "tok") (codes "1") (codes "2") (codes "opensession bob-id")
      (codes "bob-id") (codes "one") (codes "one") [] bob_opens one_talks
