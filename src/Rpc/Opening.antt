-- ===== src/Rpc/Opening.antt =====
-- The handler of /chat: what a client sees when it opens a session, and what is left in its mailbox.
use mathlib.Core.List.{append_assoc, append-nil}
use mathlib.Core.List.Memᴰ
use mathlib.Core.Path.{subst}
use go_achat_node.Prelude.{
  ◌*◌, ◌≤◌, ◌≡◌, ◌≢◌, refl, sym, ap, ◌∙◌, true, false, none, some, [], ◌∷◌, ◌++◌, Memᴰ, Bytes, All,
  codes, ℤ, length, Outcome, ok, ok_inj, err, Error, Exec,
}
use go_achat_node.Ldb.{Database}
use go_achat_node.Ldb.Laws.{DatabaseLaws, IteratorLaws}
use go_achat_node.Types.{Jid, Message, MessageList, MessageBag, normal_msg, max_pkg, peerid, mailid}
use go_achat_node.Types.Codecs.{CodecLaws}
use go_achat_node.Mailbox.{MailCodecs, MailLaws, pid_normal, do_query_msg}
use go_achat_node.Service.{send_msg, clean_own}
use go_achat_node.Service.Pump.{without_fid}
use go_achat_node.Service.Forwarding.{IsMailbox, queried, store_and_forward}
use go_achat_node.Service.Reading.{ids_of, IsKeyed, query_then_clean}
use go_achat_node.Rpc.{Req}
use go_achat_node.Rpc.Sessions.{
  Session, has_token, greeting, write_all, wrote, show_mailbox, open_session,
}

module _ {W : Type 0} (write : Message → W → Error × W) where
  -- A connection that is up: each write shows its message to the client, at the end of those in `shown`.
  pub record IsUp (shown : W → MessageList) : Type 0 where
    pub shows : (m : Message) (w : W) → shown (write m w).1 ≡ shown w ++ m ∷ []

  -- A connection that shows these messages, whatever was written to it before.
  abbrev pub Shows : (W → MessageList) → MessageList → Type 0
  Shows shown ms = All (λ m. (w : W) → shown (write m w).1 ≡ shown w ++ m ∷ []) ms

  IsUp-Shows : {shown : W → MessageList} → IsUp shown → (ms : MessageList) → Shows shown ms
  IsUp-Shows up [] = tt
  IsUp-Shows up (m ∷ ms) = (up.shows m, IsUp-Shows up ms)

  shown-write_all :
      (shown : W → MessageList) (ms : MessageList) (w : W)
      → Shows shown ms
      → shown (write_all write ms w) ≡ shown w ++ ms
  unfolding write_all
  shown-write_all shown [] w all = sym (append-nil (shown w))
  shown-write_all shown (m ∷ ms) w all =
      shown-write_all shown ms (write m w).1 all.1
      ∙ rw (all.0 w) (append_assoc (shown w) (m ∷ []) ms)

same_bag :
    {N : Type 0} (m : Message) (a b : MessageBag) (n : N) {x : Outcome MessageBag × N}
    → x ≡ (ok a, n)
    → x ≡ (ok b, n)
    → Memᴰ m a.messages
    → Memᴰ m b.messages
same_bag {N = N} m a b n {x} e f h =
    let asked : x.0 ≡ ok a = ap (λ (p : Outcome MessageBag × N). p.0) e in
    let answered : x.0 ≡ ok b = ap (λ (p : Outcome MessageBag × N). p.0) f in
    subst (λ (bag : MessageBag). Memᴰ m bag.messages) (ok_inj a b (sym asked ∙ answered)) h

module _ {S : Type 0} (db : Database S) (codecs : MailCodecs) (myid : Jid) where
  -- The messages that lie in the mailbox of this node.
  abbrev pub waiting : S → MessageList
  waiting s = (do_query_msg db codecs s myid).messages

module _ {S W : Type 0} (db : Database S) (laws : DatabaseLaws db) (iterator : IteratorLaws db)
    (codecs : MailCodecs) (formats : MailLaws codecs) (write : Message → W → Error × W)
    (request : Bytes → Bytes → Bytes → Exec S Bytes) (myid : Jid) where
  abbrev cleaned_net : S → S
  cleaned_net s = (clean_own request codecs myid (ids_of (waiting db codecs myid s)) s).1

  -- The mailbox can be reached, the messages lie there under their own ids, and the requests are within its limits.
  pub record IsReadable (s : S) : Type 0 where
    pub node : IsMailbox db laws iterator codecs formats request (mailid myid)
    pub keyed : IsKeyed db laws iterator codecs formats s myid
    pub short : length (CodecLaws.image formats.jid myid) ≤ 128
    pub small :
        length (
          CodecLaws.image formats.clean
            (record { jid = myid; ids = ids_of (waiting db codecs myid s) }))
        ≤ 2 * 1024 * 1024

  show_mailbox-eq :
      (s : Session S W)
      → IsReadable s.net
      → show_mailbox write request codecs myid s ≡ (
        ok tt,
        record s {
          net = cleaned_net s.net;
          ws = write_all write (waiting db codecs myid s.net) s.ws;
        },
      )
  unfolding show_mailbox
  show_mailbox-eq s r =
      let (done, _) =
        query_then_clean db laws iterator codecs formats request s.net myid r.node r.keyed
          r.small in
      let clean : clean_own request codecs myid (ids_of (waiting db codecs myid s.net)) s.net
          ≡ (ok tt, cleaned_net s.net) =
        λ i. (done i, cleaned_net s.net) in
      rw (queried db laws iterator codecs formats request myid s.net r.node r.short) (rw clean refl)

  opened : {O : Type 0} → Bytes → ℤ → Bytes → Req O → Session S W → Session S W
  opened uuid now fid req s = record s {
    net = cleaned_net s.net;
    handle_msg_fn = fid ∷ without_fid s.handle_msg_fn fid;
    ws =
        write_all write
          (greeting uuid now req (codes "result") (codes "success") ∷ waiting db codecs myid s.net)
          s.ws;
  }

  open_session-eq :
      {O : Type 0} (uuid : Bytes) (now : ℤ) (fid : Bytes) (req : Req O) (s : Session S W)
      → has_token s.tokens req.token ≡ true
      → IsReadable s.net
      → open_session write request codecs myid uuid now fid req s
        ≡ (ok (some fid), opened uuid now fid req s)
  unfolding open_session opened write_all
  open_session-eq uuid now fid req s known r = rw known (
      rw
        (show_mailbox-eq (wrote write (greeting uuid now req (codes "result") (codes "success")) s)
          r)
        refl)

  -- A client with an issued token opens a session: whatever its writes returned, the mailbox is empty
  -- afterwards and the callback is in place. The mailbox can be reached, its messages lie under their
  -- own ids, and the requests are within its limits of size.
  pub open_session_empties :
      {O : Type 0} (uuid : Bytes) (now : ℤ) (fid : Bytes) (req : Req O) (s : Session S W)
      → has_token s.tokens req.token ≡ true
      → IsReadable s.net
      → let (answer, t) = open_session write request codecs myid uuid now fid req s in
        (answer ≡ ok (some fid))
        × (waiting db codecs myid t.net ≡ [])
        × (t.handle_msg_fn ≡ fid ∷ without_fid s.handle_msg_fn fid)
  unfolding opened
  open_session_empties uuid now fid req s known r =
      let (_, empty) =
        query_then_clean db laws iterator codecs formats request s.net myid r.node r.keyed
          r.small in
      rw (open_session-eq uuid now fid req s known r) (refl, empty, refl)

  -- The client that opens a session with an issued token sees the greeting and then all that lay in
  -- the mailbox, in the order in which the query gives it, on a connection that shows these. The
  -- mailbox can be reached, its messages lie under their own ids, and the requests are within its
  -- limits of size.
  pub open_session-Shows :
      {O : Type 0} (shown : W → MessageList) (uuid : Bytes) (now : ℤ) (fid : Bytes) (req : Req O)
      (s : Session S W)
      → Shows write shown
          (greeting uuid now req (codes "result") (codes "success") ∷ waiting db codecs myid s.net)
      → has_token s.tokens req.token ≡ true
      → IsReadable s.net
      → shown (open_session write request codecs myid uuid now fid req s).1.ws
        ≡ shown s.ws
          ++ greeting uuid now req (codes "result") (codes "success") ∷ waiting db codecs myid s.net
  unfolding opened
  open_session-Shows shown uuid now fid req s up known r =
      rw (open_session-eq uuid now fid req s known r) (shown-write_all write shown _ s.ws up)

  module _ (shown : W → MessageList) (up : IsUp write shown) where
    -- Without an issued token the client sees an error, and nothing else changes.
    pub open_session_refused :
        {O : Type 0} (uuid : Bytes) (now : ℤ) (fid : Bytes) (req : Req O) (s : Session S W)
        → has_token s.tokens req.token ≡ false
        → let (answer, t) = open_session write request codecs myid uuid now fid req s in
          (answer ≡ ok none)
          × (t ≡ record s { ws = t.ws })
          × (shown t.ws
              ≡ shown s.ws ++ greeting uuid now req (codes "error") (codes "error_token") ∷ [])
    unfolding open_session
    open_session_refused uuid now fid req s unknown = rw unknown (refl, refl, up.shows _ s.ws)

    -- A normal message with a non-empty id that is sent to this node while it cannot be reached is
    -- among what the client sees when it opens a session on a connection that is up. The mailbox can
    -- be reached, what then lies there does so under its own id, and the requests are within its
    -- limits of size.
    pub send_msg-open_session :
        {O : Type 0} (uuid : Bytes) (now : ℤ) (fid : Bytes) (req : Req O) (m : Message) (n : S)
        (s : Session S W) {e : Bytes}
        → m.envelope.to ≡ myid
        → m.envelope.type ≡ normal_msg
        → m.envelope.id ≢ []
        → length (CodecLaws.image formats.message m) ≤ max_pkg
        → request (peerid myid) pid_normal (CodecLaws.image formats.message m) n ≡ (err e, n)
        → s.net ≡ (send_msg request codecs m n).1
        → has_token s.tokens req.token ≡ true
        → IsReadable s.net
        → ((send_msg request codecs m n).0 ≡ ok tt)
          × Memᴰ m (shown (open_session write request codecs myid uuid now fid req s).1.ws)
    send_msg-open_session uuid now fid req m n s to_me normal some_id small away after known r =
        let (sent, (bag, asked, there)) =
          store_and_forward db laws iterator codecs formats request myid m n r.node to_me normal
            some_id small r.short away in
        let answered =
          queried db laws iterator codecs formats request myid (send_msg request codecs m n).1
            r.node r.short in
        let answer : MessageList =
          greeting uuid now req (codes "result") (codes "success") ∷ waiting db codecs myid s.net in
        let waits = same_bag m bag _ (send_msg request codecs m n).1 asked answered there in
        (
          sent,
          rw (open_session-Shows shown uuid now fid req s (IsUp-Shows write up answer) known r)
              (Memᴰ.append_right _ (Memᴰ.tail (rw after waits))),
        )
