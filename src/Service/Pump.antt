-- ===== src/Service/Pump.antt =====
-- service.go: how `ChatService` hands received messages to its callbacks. Each step is one thing
-- that a goroutine does: the handler of PID_NORMAL, the loop of `Start`, or a caller of
-- `AppendHandleMsg`, `DropHandleMsg` and `Stop`.
use mathlib.Core.List.{Permᴰ}
use mathlib.Core.List.Permᴰ
use go_achat_node.Prelude.{
  ℕ, ◌≤◌, ◌<◌, ◌≡◌, ◌⊎◌, inl, inr, refl, Bool, true, false, ◌||◌, List, [], ◌∷◌, ◌++◌, map, Bytes,
  beq, length, if◌then◌else◌, arith,
}
use go_achat_node.Types.{Message}

-- The channel, the ids of the callbacks, whether `stop` is closed and `ctx` done, whether the loop
-- still runs, and the callbacks that were started, each with its message.
pub record Chat : Type 0 where
  pub recv_msg_ch : List Message
  pub handle_msg_fn : List Bytes
  pub closed : Bool
  pub done : Bool
  pub running : Bool
  pub started : List (Bytes × Message)

-- `NewChatService` and `Start`
abbrev pub new_chat : Chat
new_chat = record {
  recv_msg_ch = [];
  handle_msg_fn = [];
  closed = false;
  done = false;
  running = true;
  started = [];
}

-- `make(chan Msg, 128)`
abbrev pub capacity : ℕ
capacity = 128

unfoldable pub without_fid : List Bytes → Bytes → List Bytes
without_fid [] fid = []
without_fid (f ∷ fs) fid = let rest = without_fid fs fid in if beq f fid then rest else f ∷ rest

-- What can be seen of a step.
pub data Event : Type 0 where
  queued : Message → Event
  ignored : Message → Event
  handed : Message → Event
  added : Bytes → Event
  removed : Bytes → Event
  silent : Event

-- A message that finds no room waits: it has no step until one of the three cases of the `select`
-- is ready. Callbacks are started in the order in which the map is ranged over, which is any.
pub data Step : Chat → Event → Chat → Type 0 where
  receive :
      (c : Chat) (m : Message)
      → length c.recv_msg_ch < capacity
      → Step c (queued m) (record c { recv_msg_ch = c.recv_msg_ch ++ m ∷ [] })
  give_up : (c : Chat) (m : Message) → (c.closed || c.done) ≡ true → Step c (ignored m) c
  hand_on :
      (c : Chat) (m : Message) (rest : List Message) (order : List Bytes)
      → c.running ≡ true
      → c.recv_msg_ch ≡ m ∷ rest
      → Permᴰ order c.handle_msg_fn
      → Step c
          (handed m)
          (record c { recv_msg_ch = rest; started = c.started ++ map (λ f. (f, m)) order })
  leave : (c : Chat) → (c.closed || c.done) ≡ true → Step c silent (record c { running = false })
  append_handle_msg :
      (c : Chat) (fid : Bytes)
      → Step c (added fid) (record c { handle_msg_fn = fid ∷ without_fid c.handle_msg_fn fid })
  drop_handle_msg :
      (c : Chat) (fid : Bytes)
      → Step c (removed fid) (record c { handle_msg_fn = without_fid c.handle_msg_fn fid })
  stop : (c : Chat) → c.closed ≡ false → Step c silent (record c { closed = true })
  cancel : (c : Chat) → Step c silent (record c { done = true })

pub data Run (c : Chat) : List Event → Chat → Type 0 where
  here : Run c [] c
  next :
      {es : List Event} {d e : Chat} {v : Event} → Run c es d → Step d v e → Run c (es ++ v ∷ []) e

-- The messages that entered the channel, and those that left it.
abbrev pub queued_of : List Event → List Message
queued_of [] = []
queued_of (queued m ∷ es) = m ∷ queued_of es
queued_of (_ ∷ es) = queued_of es

abbrev pub handed_of : List Event → List Message
handed_of [] = []
handed_of (handed m ∷ es) = m ∷ handed_of es
handed_of (_ ∷ es) = handed_of es

-- The loop only leaves once the service is stopped.
abbrev IsServed : Chat → Type 0
IsServed c = (c.running ≡ true) ⊎ ((c.closed || c.done) ≡ true)

Step-IsServed : {d e : Chat} {v : Event} → Step d v e → IsServed d → IsServed e
Step-IsServed (receive c m room) h = h
Step-IsServed (give_up c m over) h = h
Step-IsServed (hand_on c m rest order runs first any) h = h
Step-IsServed (leave c over) h = inr over
Step-IsServed (append_handle_msg c fid) h = h
Step-IsServed (drop_handle_msg c fid) h = h
Step-IsServed (stop c open') h = inr refl
Step-IsServed (cancel c) h = inr (done_over c.closed)
  where
    done_over : (b : Bool) → (b || true) ≡ true
    done_over true = refl
    done_over false = refl

Run-IsServed : {es : List Event} {d : Chat} → Run new_chat es d → IsServed d
Run-IsServed here = inl refl
Run-IsServed (next run step) = Step-IsServed step (Run-IsServed run)

hand_on_full :
    (d : Chat) (q : List Message)
    → d.recv_msg_ch ≡ q
    → capacity ≤ length q
    → d.running ≡ true
    → (n : Message) × (e : Chat) × Step d (handed n) e
hand_on_full d [] same full runs = absurd (omega arith)
hand_on_full d (n ∷ rest) same full runs =
    (n, _, hand_on d n rest d.handle_msg_fn runs same (Permᴰ.refl d.handle_msg_fn))

-- Whenever a message arrives after the start, one of these can come next: it enters the channel, or
-- the handler gives it up because the service is stopped, or the loop hands on another message.
pub receive_never_stuck :
    {es : List Event} {d : Chat} (m : Message)
    → Run new_chat es d
    → ((e : Chat) × Step d (queued m) e)
      ⊎ (((e : Chat) × Step d (ignored m) e) ⊎ ((n : Message) × (e : Chat) × Step d (handed n) e))
receive_never_stuck {d = d} m run = elim (ltb_cases (length d.recv_msg_ch)) [
  | inl room ↦ inl (_, receive d m room)
  | inr full ↦ (elim (Run-IsServed run) [
    | inl runs ↦ inr (inr (hand_on_full d d.recv_msg_ch refl full runs))
    | inr over ↦ inr (inl (_, give_up d m over))
  ])
]
  where
    ltb_cases : (n : ℕ) → (n < capacity) ⊎ (capacity ≤ n)
    ltb_cases n = omega arith
