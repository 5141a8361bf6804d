-- ===== src/Service/Arrival.antt =====
-- service.go: a message on its way from `SendMsg` to the callbacks of its receiver, and what becomes
-- of it where the receiver has stopped.
use go_achat_node.Prelude.{
  ◌<◌, ◌≤◌, ◌≡◌, refl, sym, ap, ◌∙◌, true, false, ◌||◌, some, List, [], ◌∷◌, ◌++◌, Memᴰ, Bytes, ltb,
  length, ok, Exec, arith,
}
use go_achat_node.Types.{Message, normal_msg, max_pkg, peerid}
use go_achat_node.Types.Codecs.{CodecLaws}
use go_achat_node.Mailbox.{MailCodecs, MailLaws}
use go_achat_node.Service.{send_msg}
use go_achat_node.Service.Pump.{
  Chat, capacity, Event, queued, Step, receive, give_up, hand_on, leave, append_handle_msg,
  drop_handle_msg, stop, cancel, Run, here, next, handed_of,
}
use go_achat_node.Service.Receiving.{Case, enter, over, select, guarded, IsNode, send_msg-select}
use go_achat_node.Service.Draining.{queued_comes}

-- Once the loop has left, nothing is started any more.
Step-halted :
    {c d : Chat} {v : Event}
    → Step c v d
    → c.running ≡ false
    → (d.running ≡ false) × (d.started ≡ c.started)
Step-halted (receive c m room) left = (left, refl)
Step-halted (give_up c m stopped) left = (left, refl)
Step-halted (hand_on c m rest order runs first any) left = absurd cc
Step-halted (leave c stopped) left = (refl, refl)
Step-halted (append_handle_msg c fid) left = (left, refl)
Step-halted (drop_handle_msg c fid) left = (left, refl)
Step-halted (stop c open') left = (left, refl)
Step-halted (cancel c) left = (left, refl)

Run-halted :
    {c d : Chat} {es : List Event}
    → Run c es d
    → c.running ≡ false
    → (d.running ≡ false) × (d.started ≡ c.started)
Run-halted here left = (left, refl)
Run-halted (next run step) left =
    let (before, same) = Run-halted run left in
    let (after, still) = Step-halted step before in (after, still ∙ same)

with_room : Message → Chat → Chat
with_room m c = record c { recv_msg_ch = c.recv_msg_ch ++ m ∷ [] }

select-room :
    (m : Message) (c : Chat)
    → length c.recv_msg_ch < capacity
    → select enter m c ≡ some (with_room m c)
unfolding select with_room
select-room m c room =
    let open' : ltb (length c.recv_msg_ch) capacity ≡ true = ground arith in rw open' refl

-- While the service is not stopped, a message can only enter.
select-serving :
    (taken : Case) (m : Message) (c d : Chat)
    → select taken m c ≡ some d
    → (c.closed || c.done) ≡ false
    → with_room m c ≡ d
unfolding select with_room
select-serving enter m c d e serving = (guarded (ltb (length c.recv_msg_ch) capacity) _ d e).1
select-serving over m c d e serving =
    let (stopped, same) = guarded (c.closed || c.done) c d e in absurd cc

select-stopped : (m : Message) (c : Chat) → (c.closed || c.done) ≡ true → select over m c ≡ some c
unfolding select
select-stopped m c stopped = rw stopped refl

-- A message that enters, or is given up, starts no callback.
select-started :
    (taken : Case) (m : Message) (c d : Chat)
    → select taken m c ≡ some d
    → (d.running ≡ c.running) × (d.started ≡ c.started)
unfolding select
select-started enter m c d e =
    let same = (guarded (ltb (length c.recv_msg_ch) capacity) _ d e).1 in
    (ap (λ (x : Chat). x.running) (sym same), ap (λ (x : Chat). x.started) (sym same))
select-started over m c d e =
    let same = (guarded (c.closed || c.done) _ d e).1 in
    (ap (λ (x : Chat). x.running) (sym same), ap (λ (x : Chat). x.started) (sym same))

module _ (codecs : MailCodecs) (formats : MailLaws codecs)
    (request : Bytes → Bytes → Bytes → Exec Chat Bytes) (m : Message) where
  -- A normal message within its limit of size is sent with no error to a peer that can be reached and
  -- whose service runs with room in its channel: it enters the channel, and the loop can then hand on
  -- the messages before it, in their order, and at last this one, to every callback that is set, and
  -- so empty the channel.
  pub send_msg-comes :
      (c : Chat)
      → IsNode codecs request (peerid m.envelope.to)
      → m.envelope.type ≡ normal_msg
      → length (CodecLaws.image formats.message m) ≤ max_pkg
      → c.running ≡ true
      → (c.closed || c.done) ≡ false
      → length c.recv_msg_ch < capacity
      → let (sent, d) = send_msg request codecs m c in
        (sent ≡ ok tt)
        × Step c (queued m) d
        × ((e : Chat) × (es : List Event) × Run d es e
            × (handed_of es ≡ c.recv_msg_ch ++ m ∷ [])
            × (e.recv_msg_ch ≡ [])
            × ((f : Bytes) → Memᴰ f c.handle_msg_fn → Memᴰ {A = Bytes × Message} (f, m) e.started))
  unfolding with_room
  send_msg-comes c node normal small runs serving room =
      let (taken, d, went, sent) =
        send_msg-select codecs formats m small request enter c (with_room m c) node normal
          (select-room m c room) in
      rw (sent ∙ ap (λ (d : Chat). (ok tt, d)) (sym (select-serving taken m c d went serving)))
        (refl, receive c m room, queued_comes (with_room m c) c.recv_msg_ch m [] runs refl)

  -- A normal message within its limit of size to a peer that can be reached and whose service is
  -- stopped, with its loop gone, is sent with no error too, and whatever the peer's service does
  -- from then on starts no callback.
  pub send_msg-stopped_loses :
      (c : Chat)
      → IsNode codecs request (peerid m.envelope.to)
      → m.envelope.type ≡ normal_msg
      → length (CodecLaws.image formats.message m) ≤ max_pkg
      → c.running ≡ false
      → (c.closed || c.done) ≡ true
      → let (sent, d) = send_msg request codecs m c in
        (sent ≡ ok tt) × ((es : List Event) (e : Chat) → Run d es e → e.started ≡ c.started)
  send_msg-stopped_loses c node normal small left stopped =
      let (taken, d, went, sent) =
        send_msg-select codecs formats m small request over c c node normal
          (select-stopped m c stopped) in
      let (still, same) = select-started taken m c d went in
      rw sent (refl, λ es e run. (Run-halted run (still ∙ left)).1 ∙ same)
