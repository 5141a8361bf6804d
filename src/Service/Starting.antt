-- ===== src/Service/Starting.antt =====
-- The loop of `Start` in service.go: which callbacks are started for which messages.
use mathlib.Core.List.{Permᴰ}
use mathlib.Core.List.Permᴰ
use go_achat_node.Prelude.{◌≡◌, List, [], ◌∷◌, ◌++◌, map, Bytes}
use go_achat_node.Types.{Message}
use go_achat_node.Service.Pump.{without_fid, Event, handed, added, removed}

-- The ids of the callbacks that are set after some events, those in `fs` before them.
abbrev pub set_after : List Bytes → List Event → List Bytes
set_after fs [] = fs
set_after fs (added f ∷ es) = set_after (f ∷ without_fid fs f) es
set_after fs (removed f ∷ es) = set_after (without_fid fs f) es
set_after fs (_ ∷ es) = set_after fs es

-- Each message that is handed on is due for each callback that is set at that time.
abbrev pub due : List Bytes → List Event → List (Bytes × Message)
due fs [] = []
due fs (handed m ∷ es) = map (λ f. (f, m)) fs ++ due fs es
due fs (added f ∷ es) = due (f ∷ without_fid fs f) es
due fs (removed f ∷ es) = due (without_fid fs f) es
due fs (_ ∷ es) = due fs es

abbrev pub messages_of : List (Bytes × Message) → List Message
messages_of l = map (λ p. p.1) l

-- What was started is what was due, message by message, in any order of the callbacks.
pub record IsDelivered (started due : List (Bytes × Message)) : Type 0 where
  pub each_once : Permᴰ started due
  pub in_order : messages_of started ≡ messages_of due
