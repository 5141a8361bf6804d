-- ===== src/Tests/Callbacks.antt =====
-- One message on its way to one callback, and the theorems on it.
use mathlib.Core.List.Permᴰ
use go_achat_node.Prelude.{◌⊎◌, refl, List, [], ◌∷◌, codes, pos, arith}
use go_achat_node.Types.{Message, new_normal_message}
use go_achat_node.Service.Pump.{
  Chat, new_chat, Event, queued, ignored, handed, added, Step, receive, hand_on, append_handle_msg,
  Run, here, next, without_fid, receive_never_stuck,
}

abbrev first : Message
first = new_normal_message (codes "m1") (pos 1) [] [] (codes "one") []

abbrev second : Message
second = new_normal_message (codes "m2") (pos 2) [] [] (codes "two") []

-- A callback is set, two messages come in, and the first is handed to it.
abbrev events : List Event
events = added (codes "f") ∷ queued first ∷ queued second ∷ handed first ∷ []

abbrev listening : Chat
listening = record new_chat { handle_msg_fn = codes "f" ∷ [] }

abbrev handed_first : Chat
handed_first = record listening { recv_msg_ch = second ∷ []; started = (codes "f", first) ∷ [] }

Run-of_events : Run new_chat events handed_first
unfolding without_fid
Run-of_events =
    next
      (next
        (next (next here (append_handle_msg new_chat (codes "f")))
          (receive listening first (omega arith)))
        (receive (record listening { recv_msg_ch = first ∷ [] }) second (omega arith)))
      (hand_on (record listening { recv_msg_ch = first ∷ second ∷ [] }) first (second ∷ [])
        (codes "f" ∷ []) refl refl (Permᴰ.refl (codes "f" ∷ [])))

receive_never_stuck_example :
    ((e : Chat) × Step handed_first (queued first) e)
    ⊎ (((e : Chat) × Step handed_first (ignored first) e)
        ⊎ ((n : Message) × (e : Chat) × Step handed_first (handed n) e))
receive_never_stuck_example = receive_never_stuck first Run-of_events
