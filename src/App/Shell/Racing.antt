-- ===== src/App/Shell/Racing.antt =====
-- What the interleaving of the goroutines does to typed lines.
use go_achat_node.Prelude.{
  ◌-◌, ◌≤◌, ◌≡◌, refl, false, ◌++◌, drop, none, some, [], ◌∷◌, List, Bytes, codes, beq, length, ltb,
  ok, arith,
}
use go_achat_node.Rpc.{Req, split}
use go_achat_node.Rpc.Wire.{RpcJson}
use go_achat_node.App.Console.{trim, label, send_line, console_line, obey, open_target}
use go_achat_node.App.Chatting.{IsTalk, console_line-talk}
use go_achat_node.App.Shell.{
  Shell, attached, read_target, hand_over, answer, give_up, quit, turn, leave, work, Reach, here,
  next,
}
use go_achat_node.App.Shell.Settling.{IsSettled}

-- A line that opens a session with a peer whose id is long enough for the label of the prompt.
abbrev pub IsOpening : Bytes → Bytes → Type 0
IsOpening cmd jid =
    (split 32 (trim cmd) ≡ codes "opensession" ∷ jid ∷ []) × (beq cmd [] ≡ false) × (6 ≤ length jid)

label-long :
    (jid : Bytes)
    → 6 ≤ length jid
    → label jid ≡ ok (codes "@" ++ drop (length jid - 6) jid ++ codes "$> ")
unfolding label beq
label-long [] long = absurd (omega arith)
label-long (b ∷ bs) long =
    let enough : ltb (length (b ∷ bs)) 6 ≡ false = ground arith in rw enough refl

label-new : label [] ≡ ok (codes "$> ")
unfolding label beq
label-new = refl

module _ {O : Type 0} (json : RpcJson O) (token : Bytes) where
  console_line-opening :
      (uuid old cmd jid : Bytes)
      → IsOpening cmd jid
      → console_line json token uuid old cmd ≡ ok (some (none, jid))
  unfolding console_line obey open_target beq
  console_line-opening uuid old cmd jid (words, filled, long) = rw filled (rw words refl)

  -- The request of a line.
  abbrev pub asks : Bytes → Bytes → List Bytes → Bytes → Req O
  asks uuid word args = send_line json token uuid word args

  -- The prompt opens a session, and a line is typed in it.
  module _ (uuid₀ uuid₁ cmd₀ jid cmd₁ word₁ : Bytes) (args₁ : List Bytes)
      (opens : IsOpening cmd₀ jid) (talk₁ : IsTalk cmd₁ word₁ args₁) where
    talking : Shell O
    talking = record attached {
      target_id = jid;
      waiting = asks uuid₁ word₁ args₁ ∷ [];
      typed = asks uuid₁ word₁ args₁ ∷ [];
    }

    Reach-talking : Reach json token talking
    unfolding talking
    Reach-talking =
        next
          (next here (
            turn attached uuid₀ cmd₀ _ none jid refl label-new
              (console_line-opening uuid₀ [] cmd₀ jid opens)))
          (turn _ uuid₁ cmd₁ _ _ jid refl (label-long jid opens.2)
            (console_line-talk json token uuid₁ jid cmd₁ word₁ args₁ talk₁))

    -- Of two lines that are typed in a session, one after the other, and whose first words are
    -- no commands, the second may be called first, and then the other, after which nothing
    -- waits. The peer's id has at least six bytes.
    pub console-overtakes :
        (uuid₂ cmd₂ word₂ : Bytes) (args₂ : List Bytes)
        → IsTalk cmd₂ word₂ args₂
        → (s : Shell O) × Reach json token s
          × (s.typed ≡ asks uuid₁ word₁ args₁ ∷ asks uuid₂ word₂ args₂ ∷ [])
          × (s.answered ≡ (asks uuid₂ word₂ args₂, jid) ∷ (asks uuid₁ word₁ args₁, jid) ∷ [])
          × IsSettled s
    unfolding talking
    console-overtakes uuid₂ cmd₂ word₂ args₂ talk₂ =
        let f = asks uuid₁ word₁ args₁ in
        let g = asks uuid₂ word₂ args₂ in
        let both = next Reach-talking (
          turn talking uuid₂ cmd₂ _ _ jid refl (label-long jid opens.2)
            (console_line-talk json token uuid₂ jid cmd₂ word₂ args₂ talk₂)) in
        let first = next both (work refl (read_target _ (g ∷ []) f [] refl)) in
        let second = next first (work refl (read_target _ [] g [] refl)) in
        let taken =
          next second (work refl (hand_over _ [] (g, jid) ((f, jid) ∷ []) refl refl refl)) in
        let called = next taken (work refl (answer _ (g, jid) refl)) in
        let taken' = next called (work refl (hand_over _ [] (f, jid) [] refl refl refl)) in
        (
          _,
          next taken' (work refl (answer _ (f, jid) refl)),
          refl,
          refl,
          record { none_waiting = refl; none_ready = refl; none_called = refl },
        )

    -- A line that is typed in a session with one peer, and whose first word is no command, may
    -- be called with another as its target, with whom a session is opened next. Both ids have
    -- at least six bytes.
    pub console-misdirects :
        (uuid₂ cmd₂ jid' : Bytes)
        → IsOpening cmd₂ jid'
        → (s : Shell O) × Reach json token s
          × (s.typed ≡ asks uuid₁ word₁ args₁ ∷ [])
          × (s.answered ≡ (asks uuid₁ word₁ args₁, jid') ∷ [])
    unfolding talking
    console-misdirects uuid₂ cmd₂ jid' opens' =
        let f = asks uuid₁ word₁ args₁ in
        let moved = next Reach-talking (
          turn talking uuid₂ cmd₂ _ none jid' refl (label-long jid opens.2)
            (console_line-opening uuid₂ jid cmd₂ jid' opens')) in
        let read = next moved (work refl (read_target _ [] f [] refl)) in
        let taken = next read (work refl (hand_over _ [] (f, jid') [] refl refl refl)) in
        (_, next taken (work refl (answer _ (f, jid') refl)), refl, refl)

    -- A line that is typed in a session before the console is left, and whose first word is no
    -- command, may never be called: the write loop has ended and nothing waits. The peer's id
    -- has at least six bytes.
    pub console-loses :
        (s : Shell O) × Reach json token s
        × (s.typed ≡ asks uuid₁ word₁ args₁ ∷ [])
        × (s.answered ≡ [])
        × (s.writing ≡ false)
        × IsSettled s
    unfolding talking
    console-loses =
        let f = asks uuid₁ word₁ args₁ in
        let left = next Reach-talking (leave talking _ refl (label-long jid opens.2)) in
        let read = next left (work refl (read_target _ [] f [] refl)) in
        let dropped = next read (work refl (give_up _ [] (f, jid) [] refl refl)) in
        (
          _,
          next dropped (work refl (quit _ refl refl refl)),
          refl,
          refl,
          refl,
          record { none_waiting = refl; none_ready = refl; none_called = refl },
        )
