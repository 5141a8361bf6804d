-- ===== src/App/Console.antt =====
-- console.go: the prompt of `AttachCmd`, line by line. What a line makes the console do is an
-- `Action`; what it prints of the answers is left out, and so is the history.
use go_achat_node.Prelude.{
  ◌-◌, Bool, ◌||◌, Option, none, some, List, [], ◌∷◌, ◌++◌, Bytes, codes, beq, length, drop, ltb,
  ◌==◌, if◌then◌else◌, Outcome, ok, err, panic,
}
use go_achat_node.Rpc.{text, Req, split}
use go_achat_node.Rpc.Wire.{RpcJson, new_req, str2x}

pub data Action (O : Type 0) : Type 0 where
  show_help : Action O
  -- `callrpc`, whose answer the prompt waits for
  call_rpc : Req O → Action O
  -- A goroutine that hands a request to the write loop, unless the console stops first: the request
  -- depends on the target at the time at which the goroutine reads it.
  enqueue : (Bytes → Req O) → Action O

-- Where the loop ends: "exit", no more lines, or a panic.
pub data End : Type 0 where
  bye : End
  aborted : End
  crashed : End

trim_left : Bytes → Bytes
trim_left [] = []
trim_left (b ∷ bs) = let rest = trim_left bs in if b == 32 then rest else b ∷ bs

trim_right : Bytes → Bytes
trim_right [] = []
trim_right (b ∷ bs) =
    let rest = trim_right bs in if beq rest [] then (if b == 32 then [] else b ∷ []) else b ∷ rest

-- `strings.Trim(cmd, " ")`
unfoldable pub trim : Bytes → Bytes
unfolding trim_left trim_right
trim cmd = trim_right (trim_left cmd)

-- `targetId[len(targetId)-6:]` in the label, which panics on a shorter id.
unfoldable pub label : Bytes → Outcome Bytes
label target_id =
    if beq target_id []
    then ok (codes "$> ")
    else if ltb (length target_id) 6
    then panic
    else ok (codes "@" ++ drop (length target_id - 6) target_id ++ codes "$> ")

-- The commands that are methods of the node.
unfoldable pub is_method : Bytes → Bool
is_method cmd =
    beq cmd (codes "myid")
    || beq cmd (codes "conns")
    || beq cmd (codes "group_create")
    || beq cmd (codes "user_query")

module _ {O : Type 0} (json : RpcJson O) (token : Bytes) where
  -- What a line leads to: an action and the next target, or the end.
  abbrev pub Turn : Type 0
  Turn = Outcome (Option (Option (Action O) × Bytes))

  abbrev pub go_on : Option (Action O) → Bytes → Turn
  go_on a target_id = ok (some (a, target_id))

  unfoldable pub open_target : List Bytes → Turn
  open_target [] = panic
  open_target (jid ∷ _) = go_on none jid

  -- The case "default": with a target, the whole line is its message.
  unfoldable pub send_line : Bytes → Bytes → List Bytes → Bytes → Req O
  send_line uuid cmd args target_id =
      if beq target_id []
      then new_req json uuid token cmd (str2x args)
      else new_req json uuid token (codes "sendmsg") (text target_id ∷ str2x (cmd ∷ args))

  -- The `switch` on the first word of the line.
  unfoldable pub obey : Bytes → Bytes → List Bytes → Turn
  unfolding open_target
  obey uuid target_id [] = panic
  obey uuid target_id (cmd ∷ args) =
      if beq cmd (codes "opensession")
      then open_target args
      else if beq cmd (codes "help")
      then go_on (some show_help) target_id
      else if beq cmd (codes "exit")
      then (if beq target_id [] then ok none else go_on none [])
      else if is_method cmd
      then go_on (some (call_rpc (new_req json uuid token cmd (str2x args)))) target_id
      else go_on (some (enqueue (send_line uuid cmd args))) target_id

  -- One line of input: an empty one is passed over.
  unfoldable pub console_line : Bytes → Bytes → Bytes → Turn
  unfolding obey
  console_line uuid target_id cmd =
      if beq cmd [] then go_on none target_id else obey uuid target_id (split 32 (trim cmd))

  unfoldable pub add_action : Option (Action O) → List (Action O) × End → List (Action O) × End
  add_action none r = r
  add_action (some a) (actions, end) = (a ∷ actions, end)

  unfoldable pub turned : Turn → (Bytes → List (Action O) × End) → List (Action O) × End
  unfolding add_action
  turned (ok (some (a, target_id))) rest = add_action a (rest target_id)
  turned (ok none) rest = ([], bye)
  turned (err e) rest = ([], crashed)
  turned panic rest = ([], crashed)

  -- The label comes before the line.
  unfoldable pub prompted : Outcome Bytes → List (Action O) × End → List (Action O) × End
  prompted (ok _) r = r
  prompted (err e) r = ([], crashed)
  prompted panic r = ([], crashed)

  -- The loop over the lines, each with the uuid that it may draw.
  unfoldable pub console : Bytes → List (Bytes × Bytes) → List (Action O) × End
  unfolding turned prompted
  console target_id [] = prompted (label target_id) ([], aborted)
  console target_id ((uuid, cmd) ∷ lines) =
      prompted (label target_id) (turned (console_line uuid target_id cmd) (λ t. console t lines))
