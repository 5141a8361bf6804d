-- ===== src/Service/Draining.antt =====
-- The loop of `Start` in service.go: how a message that waits in the channel comes to the callbacks.
use mathlib.Core.List.Permᴰ
use mathlib.Core.List.Memᴰ
use go_achat_node.Prelude.{◌≡◌, refl, ap, true, List, [], ◌∷◌, ◌++◌, map, Memᴰ, Bytes}
use go_achat_node.Types.{Message}
use go_achat_node.Service.Pump.{Chat, Event, handed, Step, hand_on, Run, here, next, handed_of}

-- A step before a run.
prepend :
    {c d : Chat} {v : Event} {es : List Event} {e : Chat}
    → Step c v d
    → Run d es e
    → Run c (v ∷ es) e
prepend step here = next here step
prepend step (next run later) = next (prepend step run) later

mem-started :
    (m : Message) (f : Bytes) (fs : List Bytes)
    → Memᴰ f fs
    → Memᴰ {A = Bytes × Message} (f, m) (map (λ f. (f, m)) fs)
mem-started m f (x ∷ fs) (Memᴰ.head e) = Memᴰ.head (ap (λ y. (y, m)) e)
mem-started m f (x ∷ fs) (Memᴰ.tail t) = Memᴰ.tail (mem-started m f fs t)
mem-started m f [] t = absurd (Memᴰ.not-nil t)

-- The loop hands on the message in front, to all callbacks.
handed_on : Chat → Message → List Message → Chat
handed_on c m rest = record c {
  recv_msg_ch = rest;
  started = c.started ++ map (λ f. (f, m)) c.handle_msg_fn;
}

hand_on_first :
    (c : Chat) (m : Message) (rest : List Message)
    → c.running ≡ true
    → c.recv_msg_ch ≡ m ∷ rest
    → Step c (handed m) (handed_on c m rest)
unfolding handed_on
hand_on_first c m rest runs first =
    hand_on c m rest c.handle_msg_fn runs first (Permᴰ.refl c.handle_msg_fn)

-- A message that has entered the channel can still come to every callback, as long as the loop runs,
-- with nothing but steps of the loop: those hand on the messages before it, in their order, then this
-- one, and leave those behind it.
pub queued_comes :
    (c : Chat) (pre : List Message) (m : Message) (post : List Message)
    → c.running ≡ true
    → c.recv_msg_ch ≡ pre ++ m ∷ post
    → (d : Chat) × (es : List Event) × Run c es d
      × (handed_of es ≡ pre ++ m ∷ [])
      × (d.recv_msg_ch ≡ post)
      × ((f : Bytes) → Memᴰ f c.handle_msg_fn → Memᴰ {A = Bytes × Message} (f, m) d.started)
unfolding handed_on
queued_comes c [] m post runs first = (
  handed_on c m post,
  handed m ∷ [],
  prepend (hand_on_first c m post runs first) here,
  refl,
  refl,
  λ f there. Memᴰ.append_right c.started (mem-started m f c.handle_msg_fn there),
)
queued_comes c (n ∷ pre) m post runs first =
    let (d, es, run, order, left, came) =
      queued_comes (handed_on c n (pre ++ m ∷ post)) pre m post runs refl in
    (
      d,
      handed n ∷ es,
      prepend (hand_on_first c n (pre ++ m ∷ post) runs first) run,
      ap (λ l. n ∷ l) order,
      left,
      came,
    )
