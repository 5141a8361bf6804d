-- ===== src/App/Shell.antt =====
-- console.go: the goroutines of the console, that is the prompt of `AttachCmd`, the write loop of
-- `rwLoop` and the goroutine that the case "default" starts for each line. A step is one thing that
-- one of them does. A goroutine reads `targetId` once here, where the code reads it twice in a row.
pub mod Counting
pub mod Settling
pub mod Racing
use go_achat_node.Prelude.{
  ◌≡◌, ◌⊎◌, Bool, true, false, Option, none, some, List, [], ◌∷◌, ◌++◌, Bytes, ok, panic,
}
use go_achat_node.Rpc.{Req}
use go_achat_node.Rpc.Wire.{RpcJson}
use go_achat_node.App.Console.{Action, show_help, call_rpc, enqueue, label, console_line}

-- What a line becomes, with the target that its goroutine read.
abbrev pub Sent : Type 0 → Type 0
Sent O = (Bytes → Req O) × Bytes

pub record Shell (O : Type 0) : Type 0 where
  pub target_id : Bytes
  -- whether `Stop` is closed, and whether the write loop runs
  pub stopped : Bool
  pub writing : Bool
  -- whether the program has ended
  pub exited : Bool
  -- the goroutines that have not read the target yet, and those that wait in their `select`
  pub waiting : List (Bytes → Req O)
  pub ready : List (Sent O)
  -- the request that the write loop has taken from `reqCh` and calls
  pub calling : Option (Sent O)
  -- what happened: the requests that were called, the last one at the end, those whose goroutine
  -- took `Stop`, and the lines that were given to a goroutine
  pub answered : List (Sent O)
  pub dropped : List (Sent O)
  pub typed : List (Bytes → Req O)

-- After `rwLoop`, at the first prompt.
abbrev pub attached : {O : Type 0} → Shell O
attached = record {
  target_id = [];
  stopped = false;
  writing = true;
  exited = false;
  waiting = [];
  ready = [];
  calling = none;
  answered = [];
  dropped = [];
  typed = [];
}

-- `go func() { ... }()`, in the case "default" only
abbrev pub spawned : {O : Type 0} → Option (Action O) → List (Bytes → Req O)
spawned (some (enqueue f)) = f ∷ []
spawned _ = []

-- What goes on without the prompt. `reqCh` has no buffer: a request is handed over when the write
-- loop is at its `select`. Where several cases of a `select` are ready, any may be taken.
pub data Work {O : Type 0} : Shell O → Shell O → Type 0 where
  read_target :
      (s : Shell O) (pre : List (Bytes → Req O)) (f : Bytes → Req O) (post : List (Bytes → Req O))
      → s.waiting ≡ pre ++ f ∷ post
      → Work s (record s { waiting = pre ++ post; ready = (f, s.target_id) ∷ s.ready })
  hand_over :
      (s : Shell O) (pre : List (Sent O)) (r : Sent O) (post : List (Sent O))
      → s.ready ≡ pre ++ r ∷ post
      → s.writing ≡ true
      → s.calling ≡ none
      → Work s (record s { ready = pre ++ post; calling = some r })
  answer :
      (s : Shell O) (r : Sent O)
      → s.calling ≡ some r
      → Work s (record s { calling = none; answered = s.answered ++ r ∷ [] })
  give_up :
      (s : Shell O) (pre : List (Sent O)) (r : Sent O) (post : List (Sent O))
      → s.ready ≡ pre ++ r ∷ post
      → s.stopped ≡ true
      → Work s (record s { ready = pre ++ post; dropped = r ∷ s.dropped })
  quit :
      (s : Shell O)
      → s.writing ≡ true
      → s.calling ≡ none
      → s.stopped ≡ true
      → Work s (record s { writing = false })

-- Where the prompt cannot go on: its label panics, or what it does with a line.
abbrev pub Crashes : {O : Type 0} → RpcJson O → Bytes → Shell O → Bytes → Bytes → Type 0
Crashes json token s uuid cmd =
    (label s.target_id ≡ panic) ⊎ (console_line json token uuid s.target_id cmd ≡ panic)

-- The prompt shows its label and reads a line, until it is left, by "exit" or where no more lines
-- come, or panics: each closes `Stop`. Some time after that the program ends, and with it all the
-- goroutines.
pub data Step {O : Type 0} (json : RpcJson O) (token : Bytes) : Shell O → Shell O → Type 0 where
  turn :
      (s : Shell O) (uuid cmd shown : Bytes) (a : Option (Action O)) (t : Bytes)
      → s.stopped ≡ false
      → label s.target_id ≡ ok shown
      → console_line json token uuid s.target_id cmd ≡ ok (some (a, t))
      → Step json token s (record s {
        target_id = t;
        waiting = spawned a ++ s.waiting;
        typed = s.typed ++ spawned a;
      })
  leave :
      (s : Shell O) (shown : Bytes)
      → s.stopped ≡ false
      → label s.target_id ≡ ok shown
      → Step json token s (record s { stopped = true })
  crash :
      (s : Shell O) (uuid cmd : Bytes)
      → s.stopped ≡ false
      → Crashes json token s uuid cmd
      → Step json token s (record s { stopped = true })
  work : {s t : Shell O} → s.exited ≡ false → Work s t → Step json token s t
  exit : (s : Shell O) → s.stopped ≡ true → Step json token s (record s { exited = true })

pub data Reach {O : Type 0} (json : RpcJson O) (token : Bytes) : Shell O → Type 0 where
  here : Reach json token attached
  next : {s t : Shell O} → Reach json token s → Step json token s t → Reach json token t
