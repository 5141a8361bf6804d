-- ===== src/App/Shell/Settling.antt =====
-- Without new lines the goroutines of the console come to rest.
use mathlib.Core.List.{Permᴰ}
use mathlib.Core.List.Permᴰ
use go_achat_node.Prelude.{
  ℕ, zero, suc, ◌+◌, ◌*◌, ◌≡◌, Option, none, some, List, [], length, if◌then◌else◌,
}
use go_achat_node.App.Shell.{Sent, Shell, Work}

abbrev pub busy : {O : Type 0} → Option (Sent O) → ℕ
busy none = 0
busy (some r) = 1

-- The steps that are left at most: three for a goroutine that has not read the target, two for one
-- that has, one for a call, and the end of the write loop.
abbrev pub weight : {O : Type 0} → Shell O → ℕ
weight s = 3 * length s.waiting + 2 * length s.ready + busy s.calling + (if s.writing then 1 else 0)

-- A number of steps without the prompt.
pub data Works {O : Type 0} (s : Shell O) : ℕ → Shell O → Type 0 where
  rest : Works s zero s
  more : {n : ℕ} {t u : Shell O} → Works s n t → Work t u → Works s (suc n) u

-- Nothing waits and nothing is being called.
pub record IsSettled {O : Type 0} (s : Shell O) : Type 0 where
  pub none_waiting : s.waiting ≡ []
  pub none_ready : s.ready ≡ []
  pub none_called : s.calling ≡ none

module _ {O : Type 0} where
  abbrev Further : Shell O → Type 0
  Further s = (t : Shell O) × Work s t
