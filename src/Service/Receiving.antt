-- ===== src/Service/Receiving.antt =====
-- service.go: the handler that `normalService` sets, which reads a message and puts it into the
-- channel. Which case of its `select` is taken is an argument, since any that is ready may be.
use mathlib.Core.Path.{subst}
use mathlib.Core.Option.{some-injective, none-ne-some}
use go_achat_node.Prelude.{
  ◌≤◌, ◌≡◌, ◌⊎◌, inl, inr, refl, sym, ap, eqb_ℤ, ◌∙◌, Bool, true, false, ◌||◌, Option, none, some,
  [], ◌∷◌, ◌++◌, Bytes, ltb, length, if◌then◌else◌, ok, Error, Exec, arith,
}
use go_achat_node.Types.{Message, normal_msg, max_pkg, peerid}
use go_achat_node.Types.Codecs.{CodecLaws, to_bytes_lem}
use go_achat_node.Group.Service.{success}
use go_achat_node.Mailbox.{MailCodecs, MailLaws, Reply, pid_normal, message_from_reader}
use go_achat_node.Service.{send_msg}
use go_achat_node.Service.Pump.{Chat, capacity, queued, ignored, Step, receive, give_up}

-- The cases of the `select`: the channel has room, or one of `stop` and `ctx.Done()` is closed.
pub data Case : Type 0 where
  enter : Case
  over : Case

-- `none` where the case is not ready.
unfoldable pub select : Case → Message → Chat → Option Chat
select enter m c =
    if ltb (length c.recv_msg_ch) capacity
    then some (record c { recv_msg_ch = c.recv_msg_ch ++ m ∷ [] })
    else none
select over m c = if c.closed || c.done then some c else none

succeed : Option Chat → Option (Reply × Chat)
succeed (some c) = some ((success, none), c)
succeed none = none

succeed_lem :
    (o : Option Chat) (v : Bytes) (e : Chat) → succeed o ≡ some ((v, none), e) → o ≡ some e
unfolding succeed
succeed_lem (some d) v e h = cc
succeed_lem none v e h = absurd (none-ne-some _ h)

-- A message that does not decode is answered with the text of the error.
unfoldable pub normal_request : Case → Message × Error → Chat → Option (Reply × Chat)
unfolding succeed
normal_request case (m, none) c = succeed (select case m c)
normal_request case (m, some e) c = some ((e, some e), c)

pub normal_request-select :
    (case : Case) (m : Message) (v : Bytes) (c e : Chat)
    → normal_request case (m, none) c ≡ some ((v, none), e)
    → select case m c ≡ some e
unfolding normal_request
normal_request-select case m v c e h = succeed_lem (select case m c) v e h

-- The handler of PID_NORMAL: what it wrote and what it returned, and the service after it; `none`
-- where it waits.
unfoldable pub normal_handler : MailCodecs → Case → Bytes → Chat → Option (Reply × Chat)
unfolding normal_request
normal_handler codecs case input c = normal_request case (message_from_reader codecs input) c

-- A peer that has this handler on its service: a request that the handler can answer with no error is
-- answered with what it wrote, in one of the cases that were ready.
pub record IsNode (codecs : MailCodecs) (request : Bytes → Bytes → Bytes → Exec Chat Bytes)
    (peer : Bytes) : Type 0 where
  pub receives :
      (case : Case) (buf w : Bytes) (c d : Chat)
      → normal_handler codecs case buf c ≡ some ((w, none), d)
      → (taken : Case) × (v : Bytes) × (e : Chat) × (normal_handler codecs taken buf c
          ≡ some ((v, none), e))
        × (request peer pid_normal buf c ≡ (ok v, e))

pub guarded :
    {A : Type 0} (b : Bool) (x d : A) → (if b then some x else none) ≡ some d → (b ≡ true) × (x ≡ d)
guarded true x d e = (refl, some-injective x d e)
guarded false x d e = absurd (none-ne-some d e)

-- Taking a case that is ready is a step of the service.
pub select-Step :
    (case : Case) (m : Message) (c d : Chat)
    → select case m c ≡ some d
    → Step c (queued m) d ⊎ Step c (ignored m) d
unfolding select
select-Step enter m c d e =
    let (room, same) = guarded (ltb (length c.recv_msg_ch) capacity) _ d e in
    inl (subst (Step c (queued m)) same (receive c m (ground arith)))
select-Step over m c d e =
    let (stopped, same) = guarded (c.closed || c.done) _ d e in
    inr (subst (Step c (ignored m)) same (give_up c m stopped))

module _ (codecs : MailCodecs) (formats : MailLaws codecs) (m : Message)
    (small : length (CodecLaws.image formats.message m) ≤ max_pkg) where
  read : message_from_reader codecs (CodecLaws.image formats.message m) ≡ (m, none)
  read = CodecLaws.read-image formats.message max_pkg m small

  normal_handler-image :
      (case : Case) (c : Chat)
      → normal_handler codecs case (CodecLaws.image formats.message m) c
        ≡ normal_request case (m, none) c
  unfolding normal_handler
  normal_handler-image case c = ap (λ p. normal_request case p c) read

  -- A message that reaches the handler whole goes into the channel or is given up, and its sender is
  -- told of success either way.
  pub send_msg-select :
      (request : Bytes → Bytes → Bytes → Exec Chat Bytes) (case : Case) (c d : Chat)
      → IsNode codecs request (peerid m.envelope.to)
      → m.envelope.type ≡ normal_msg
      → select case m c ≡ some d
      → (taken : Case) × (e : Chat) × (select taken m c ≡ some e)
        × (send_msg request codecs m c ≡ (ok tt, e))
  unfolding send_msg normal_request
  send_msg-select request case c d node normal ready =
      let is_normal : eqb_ℤ m.envelope.type normal_msg ≡ true = ground arith in
      let (taken, v, e, handled, reply) =
        node.receives case (CodecLaws.image formats.message m) success c d
          (normal_handler-image case c ∙ ap succeed ready) in
      let image = to_bytes_lem formats.message m in
      (
        taken,
        e,
        normal_request-select taken m v c e (sym (normal_handler-image taken c) ∙ handled),
        rw is_normal (simp (image, reply)),
      )
