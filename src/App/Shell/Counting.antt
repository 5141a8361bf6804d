-- ===== src/App/Shell/Counting.antt =====
-- Each typed line is in one place.
use mathlib.Core.List.{Permᴰ, append_assoc, map-append}
use mathlib.Core.List.Permᴰ
use go_achat_node.Prelude.{
  ◌≡◌, ◌⊎◌, inl, inr, refl, sym, ap, ◌∙◌, true, Option, none, some, List, [], ◌∷◌, ◌++◌, map, Bytes,
}
use go_achat_node.Rpc.{Req}
use go_achat_node.Rpc.Wire.{RpcJson}
use go_achat_node.App.Shell.{
  Sent, Shell, Work, read_target, hand_over, answer, give_up, quit, Step, turn, leave, crash, work,
  exit, Reach, here, next, spawned,
}
use mathlib.Core.Path.{subst}

abbrev pub lines : {O : Type 0} → List (Sent O) → List (Bytes → Req O)
lines l = map (λ r. r.0) l

abbrev pub called : {O : Type 0} → Option (Sent O) → List (Bytes → Req O)
called none = []
called (some r) = r.0 ∷ []

-- All the lines that the console has in hand or is done with.
abbrev pub lines_of : {O : Type 0} → Shell O → List (Bytes → Req O)
lines_of s =
    s.waiting ++ (lines s.ready ++ (lines s.dropped ++ (called s.calling ++ lines s.answered)))

-- An element leaves one list for a later one.
move_over :
    {A : Type 0} (pre post mid rest : List A) (a : A) {pool : List A}
    → pool ≡ pre ++ a ∷ post
    → Permᴰ ((pre ++ post) ++ (mid ++ a ∷ rest)) (pool ++ (mid ++ rest))
move_over pre post mid rest a e = rw e (
    Permᴰ.trans (Permᴰ.append_left (pre ++ post) (Permᴰ.middle a mid rest)) (
      Permᴰ.trans (Permᴰ.middle a (pre ++ post) (mid ++ rest))
        (Permᴰ.symm (Permᴰ.append_right (mid ++ rest) (Permᴰ.middle a pre post)))))

module _ {O : Type 0} where
  lines-append : (l k : List (Sent O)) → lines (l ++ k) ≡ lines l ++ lines k
  lines-append l k = map-append (λ r. r.0) l k

  -- A goroutine that leaves the pool of the ready ones.
  left_ready :
      (pre post : List (Sent O)) (r : Sent O) (mid rest : List (Bytes → Req O))
      {ready : List (Sent O)}
      → ready ≡ pre ++ r ∷ post
      → Permᴰ (lines (pre ++ post) ++ (mid ++ r.0 ∷ rest)) (lines ready ++ (mid ++ rest))
  left_ready pre post r mid rest e =
      rw (lines-append pre post)
        (move_over (lines pre) (lines post) mid rest r.0 (ap lines e ∙ lines-append pre (r ∷ post)))

  taken :
      (c : Option (Sent O)) (xs ys mid rest : List (Bytes → Req O))
      → c ≡ none
      → Permᴰ xs (ys ++ (mid ++ rest))
      → Permᴰ xs (ys ++ (mid ++ (called c ++ rest)))
  taken c xs ys mid rest e p = subst (λ c. Permᴰ xs (ys ++ (mid ++ (called c ++ rest)))) (sym e) p

  answered_last :
      (l : List (Sent O)) (r : Sent O) (c : Option (Sent O))
      → c ≡ some r
      → Permᴰ (lines (l ++ r ∷ [])) (called c ++ lines l)
  answered_last l r c e =
      subst (λ c. Permᴰ (lines (l ++ r ∷ [])) (called c ++ lines l)) (sym e)
        (rw (lines-append l (r ∷ [])) (Permᴰ.append_comm (lines l) (r.0 ∷ [])))

  pub Work-Perm : {s t : Shell O} → Work s t → Permᴰ (lines_of t) (lines_of s)
  Work-Perm (read_target s pre f post e) = move_over pre post [] _ f e
  Work-Perm (hand_over s pre r post e writes free) = Permᴰ.append_left s.waiting (
      taken s.calling _ (lines s.ready) (lines s.dropped) (lines s.answered) free
        (left_ready pre post r (lines s.dropped) (lines s.answered) e))
  Work-Perm (answer s r e) = Permᴰ.append_left s.waiting (
      Permᴰ.append_left (lines s.ready)
        (Permᴰ.append_left (lines s.dropped) (answered_last s.answered r s.calling e)))
  Work-Perm (give_up s pre r post e over) =
      Permᴰ.append_left s.waiting (left_ready pre post r [] _ e)
  Work-Perm (quit s writes free over) = Permᴰ.refl (lines_of s)

  -- Lines that are typed join the pool in front.
  joined :
      (new old rest typed : List (Bytes → Req O))
      → Permᴰ (old ++ rest) typed
      → Permᴰ ((new ++ old) ++ rest) (typed ++ new)
  joined new old rest typed p =
      rw (append_assoc new old rest)
        (Permᴰ.trans (Permᴰ.append_left new p) (Permᴰ.append_comm new typed))

  pub Work-typed : {s t : Shell O} → Work s t → t.typed ≡ s.typed
  Work-typed (read_target s pre f post e) = refl
  Work-typed (hand_over s pre r post e writes free) = refl
  Work-typed (answer s r e) = refl
  Work-typed (give_up s pre r post e over) = refl
  Work-typed (quit s writes free over) = refl

  -- The write loop is there until `Stop` is closed, and no request is dropped before.
  pub record IsKept (s : Shell O) : Type 0 where
    pub served : (s.writing ≡ true) ⊎ (s.stopped ≡ true)
    pub kept : (s.stopped ≡ true) ⊎ (s.dropped ≡ [])

  pub Work-IsKept : {s t : Shell O} → Work s t → IsKept s → IsKept t
  Work-IsKept (read_target s pre f post e) h = record { served = h.served; kept = h.kept }
  Work-IsKept (hand_over s pre r post e writes free) h = record { served = h.served; kept = h.kept }
  Work-IsKept (answer s r e) h = record { served = h.served; kept = h.kept }
  Work-IsKept (give_up s pre r post e over) h = record { served = h.served; kept = inl over }
  Work-IsKept (quit s writes free over) h = record { served = inr over; kept = h.kept }

  module _ (json : RpcJson O) (token : Bytes) where
    Step-Perm :
        {s t : Shell O}
        → Step json token s t
        → Permᴰ (lines_of s) s.typed
        → Permᴰ (lines_of t) t.typed
    Step-Perm (turn s uuid cmd shown a t open' labelled does) p =
        joined (spawned a) s.waiting _ s.typed p
    Step-Perm (leave s shown open' labelled) p = p
    Step-Perm (crash s uuid cmd open' why) p = p
    Step-Perm (exit s over) p = p
    Step-Perm (work runs w) p = rw (Work-typed w) (Permᴰ.trans (Work-Perm w) p)

    Step-IsKept : {s t : Shell O} → Step json token s t → IsKept s → IsKept t
    Step-IsKept (turn s uuid cmd shown a t open' labelled does) h = record {
      served = h.served;
      kept = h.kept;
    }
    Step-IsKept (leave s shown open' labelled) h = record { served = inr refl; kept = inl refl }
    Step-IsKept (crash s uuid cmd open' why) h = record { served = inr refl; kept = inl refl }
    Step-IsKept (exit s over) h = record { served = h.served; kept = h.kept }
    Step-IsKept (work runs w) h = Work-IsKept w h

    pub Reach-IsKept : {s : Shell O} → Reach json token s → IsKept s
    Reach-IsKept here = record { served = inl refl; kept = inr refl }
    Reach-IsKept (next r step) = Step-IsKept step (Reach-IsKept r)

    -- However the goroutines of the console interleave, each line that was given to one is in exactly
    -- one place: its goroutine waits, its request is being called, was called, or was dropped. None is
    -- dropped before the console stops.
    pub Reach-Perm :
        {s : Shell O}
        → Reach json token s
        → Permᴰ (lines_of s) s.typed × ((s.stopped ≡ true) ⊎ (s.dropped ≡ []))
    Reach-Perm here = (Permᴰ.nil, inr refl)
    Reach-Perm (next r step) = (Step-Perm step (Reach-Perm r).0, (Reach-IsKept (next r step)).kept)
