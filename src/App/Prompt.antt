-- ===== src/App/Prompt.antt =====
-- console.go: the loop of the prompt over whole inputs.
use go_achat_node.Prelude.{
  ◌<◌, ◌≡◌, refl, Bool, true, false, Bool-cases, inl, inr, Option, Option-cases, none, some, List,
  [], ◌∷◌, Bytes, codes, beq, All, length, ltb, if◌then◌else◌, Outcome, ok, err, panic, arith,
}
use go_achat_node.Rpc.{Param, split}
use go_achat_node.Rpc.Wire.{RpcJson, adapt, new_req, str2x}
use go_achat_node.App.Console.{
  Action, show_help, call_rpc, enqueue, End, crashed, aborted, is_method, trim, label, obey,
  open_target, turned, add_action, send_line, prompted, Turn, console_line, console,
}

module _ {O : Type 0} (json : RpcJson O) (token : Bytes) where
  -- The requests of an action carry the token, whatever the target when they are read.
  abbrev pub IsAuthorized : Action O → Type 0
  IsAuthorized show_help = Unit
  IsAuthorized (call_rpc req) = req.token ≡ token
  IsAuthorized (enqueue f) = (target_id : Bytes) → (f target_id).token ≡ token

  pub new_req-token :
      (uuid m : Bytes) (p : List (Param O)) → (new_req json uuid token m p).token ≡ token
  unfolding new_req
  new_req-token uuid m p = elim (Option-cases (adapt json p)) [
    | inl e ↦ rw (e, new_req) refl
    | inr (d, e) ↦ rw (e, new_req) refl
  ]

  send_line-token :
      (uuid cmd : Bytes) (args : List Bytes) (target_id : Bytes)
      → (send_line json token uuid cmd args target_id).token ≡ token
  unfolding send_line
  send_line-token uuid cmd args target_id = elim (Bool-cases (beq target_id [])) [
    | inl e ↦ rw e (new_req-token uuid cmd (str2x args))
    | inr e ↦ rw e (new_req-token uuid (codes "sendmsg") _)
  ]

  abbrev IsOption : Option (Action O) → Type 0
  IsOption none = Unit
  IsOption (some a) = IsAuthorized a

  abbrev IsTurn : Turn json token → Type 0
  IsTurn (ok (some (a, t))) = IsOption a
  IsTurn _ = Unit

  if-IsTurn : (b : Bool) (x y : Turn json token) → IsTurn x → IsTurn y → IsTurn (if b then x else y)
  if-IsTurn true x y h k = h
  if-IsTurn false x y h k = k

  open_target-IsTurn : (args : List Bytes) → IsTurn (open_target json token args)
  unfolding open_target
  open_target-IsTurn [] = tt
  open_target-IsTurn (jid ∷ args) = tt

  obey-IsTurn :
      (uuid target_id : Bytes) (words : List Bytes) → IsTurn (obey json token uuid target_id words)
  unfolding obey
  obey-IsTurn uuid target_id [] = tt
  obey-IsTurn uuid target_id (cmd ∷ args) =
      if-IsTurn (beq cmd (codes "opensession")) _ _ (open_target-IsTurn args) (
        if-IsTurn (beq cmd (codes "help")) _ _ tt (
          if-IsTurn (beq cmd (codes "exit")) _ _ (if-IsTurn (beq target_id []) _ _ tt tt) (
            if-IsTurn (is_method cmd) _ _ (new_req-token uuid cmd (str2x args))
              (send_line-token uuid cmd args))))

  console_line-IsTurn :
      (uuid target_id cmd : Bytes) → IsTurn (console_line json token uuid target_id cmd)
  unfolding console_line
  console_line-IsTurn uuid target_id cmd =
      if-IsTurn (beq cmd []) _ _ tt (obey-IsTurn uuid target_id (split 32 (trim cmd)))

  turned-IsAuthorized :
      (r : Turn json token) (rest : Bytes → List (Action O) × End)
      → IsTurn r
      → ((t : Bytes) → All IsAuthorized (rest t).0)
      → All IsAuthorized (turned json token r rest).0
  unfolding turned add_action
  turned-IsAuthorized (ok (some (none, t))) rest h all = all t
  turned-IsAuthorized (ok (some (some a, t))) rest h all = (h, all t)
  turned-IsAuthorized (ok none) rest h all = tt
  turned-IsAuthorized (err e) rest h all = tt
  turned-IsAuthorized panic rest h all = tt

  prompted-IsAuthorized :
      (l : Outcome Bytes) (r : List (Action O) × End)
      → All IsAuthorized r.0
      → All IsAuthorized (prompted json token l r).0
  unfolding prompted
  prompted-IsAuthorized (ok l) r h = h
  prompted-IsAuthorized (err e) r h = tt
  prompted-IsAuthorized panic r h = tt

  -- Whatever is typed at the prompt, every request that the console makes carries its token.
  pub console-IsAuthorized :
      (target_id : Bytes) (lines : List (Bytes × Bytes))
      → All IsAuthorized (console json token target_id lines).0
  unfolding console
  console-IsAuthorized target_id [] = prompted-IsAuthorized (label target_id) ([], aborted) tt
  console-IsAuthorized target_id ((uuid, cmd) ∷ lines) = prompted-IsAuthorized (label target_id) _ (
      turned-IsAuthorized (console_line json token uuid target_id cmd)
        (λ t. console json token t lines) (console_line-IsTurn uuid target_id cmd)
        (λ t. console-IsAuthorized t lines))

  label-short : (jid : Bytes) → beq jid [] ≡ false → length jid < 6 → label jid ≡ panic
  unfolding label
  label-short jid some_id short =
      let cut : ltb (length jid) 6 ≡ true = ground arith in rw some_id (rw cut refl)

  console-label_panic :
      (jid : Bytes) (lines : List (Bytes × Bytes))
      → label jid ≡ panic
      → console json token jid lines ≡ ([], crashed)
  unfolding console prompted
  console-label_panic jid [] h = rw h refl
  console-label_panic jid ((uuid, cmd) ∷ lines) h = rw h refl

  -- At the prompt without a session, opensession with an id of one to five bytes ends the console with
  -- a panic, whatever is typed next.
  pub console-short :
      (uuid cmd jid : Bytes) (args : List Bytes) (lines : List (Bytes × Bytes))
      → beq cmd [] ≡ false
      → split 32 (trim cmd) ≡ codes "opensession" ∷ jid ∷ args
      → beq jid [] ≡ false
      → length jid < 6
      → console json token [] ((uuid, cmd) ∷ lines) ≡ ([], crashed)
  unfolding console console_line obey open_target turned add_action label prompted beq
  console-short uuid cmd jid args lines filled words some_id short =
      rw filled (rw words (console-label_panic jid lines (label-short jid some_id short)))
