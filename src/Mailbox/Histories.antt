-- ===== src/Mailbox/Histories.antt =====
-- The handlers of mailbox.go implement the boxes of the peers, whatever requests came before.
use mathlib.Core.Path.{fun_ext}
use go_achat_node.Prelude.{
  ◌≡◌, ◌≢◌, ◌↔◌, ◌⊎◌, inl, inr, refl, sym, ap, ◌∙◌, true, false, Bool-cases, none, some, List, [],
  ◌∷◌, ◌++◌, Memᴰ, Bytes, All, Outcome, ok, err, panic, Error, eqb_ℤ, arith,
}
use go_achat_node.Ldb.{Database}
use go_achat_node.Ldb.Laws.{DatabaseLaws, IteratorLaws}
use go_achat_node.Types.{Jid, Message, normal_msg, group_msg, peerid}
use go_achat_node.Types.Sorting.{IsSorted}
use go_achat_node.Mailbox.{MailCodecs, MailLaws, do_query_msg}
use go_achat_node.Mailbox.Contents.{do_query_msg_lem}
use go_achat_node.Mailbox.Delivery.{msg_handler-put_msg, msg_handler-refused, clean_handler_lem}
use go_achat_node.Mailbox.Boxes.{
  Box, Request, put, clean, is_kept, apply, apply_all, decoded, stored, box_of, serve, serve_all,
  IsOrderly, box_of-put_msg, box_of-do_clean_msg,
}

module _ {S : Type 0} (db : Database S) (laws : DatabaseLaws db) (codecs : MailCodecs)
    (formats : MailLaws codecs) where
  kept_type :
      (m : Message)
      → is_kept m ≡ true
      → (m.envelope.type ≡ normal_msg) ⊎ (m.envelope.type ≡ group_msg)
  kept_type m h = elim (Bool-cases (eqb_ℤ m.envelope.type normal_msg)) [
    | inl e ↦ inl (ground arith)
    | inr e ↦ inr (ground arith)
  ]

  serve-apply :
      (r : Request) (s : S) (peer id : Bytes)
      → IsOrderly codecs formats peer r
      → box_of db codecs (serve db codecs formats r s) peer id
        ≡ apply peer r (box_of db codecs s peer) id
  unfolding serve
  serve-apply (put m) s peer id (len, small) = elim (Bool-cases (is_kept m)) [
    | inl e ↦ rw e (
        rw (serve, msg_handler-put_msg db laws codecs formats m s small (kept_type m e))
          (box_of-put_msg db laws codecs formats m s peer id len))
    | inr e ↦
        (let n : eqb_ℤ m.envelope.type normal_msg ≡ false = ground arith in
          let g : eqb_ℤ m.envelope.type group_msg ≡ false = ground arith in
          rw (n, g) (rw (serve, msg_handler-refused db laws codecs formats m s small n g) refl))
  ]
  serve-apply (clean c) s peer id (len, small) =
      rw (serve, clean_handler_lem db laws codecs formats c s small)
        (box_of-do_clean_msg db laws codecs formats c s peer id len)

  -- The handlers implement the boxes: after any requests for peers with ids of one length, the store
  -- holds for a peer what the requests make of its box.
  serve_all-apply_all :
      (rs : List Request) (s : S) (peer : Bytes)
      → All (IsOrderly codecs formats peer) rs
      → box_of db codecs (serve_all db codecs formats rs s) peer
        ≡ apply_all peer rs (box_of db codecs s peer)
  unfolding serve_all
  serve_all-apply_all [] s peer h = refl
  serve_all-apply_all (r ∷ rs) s peer (h, hs) =
      serve_all-apply_all rs (serve db codecs formats r s) peer hs
      ∙ ap (apply_all peer rs) (fun_ext (λ id. serve-apply r s peer id h))

  box_of-some :
      (s : S) (peer id : Bytes) (m : Message) (r : Outcome Bytes)
      → db.get s (peer ++ id) ≡ r
      → box_of db codecs s peer id ≡ some m
      → (buf : Bytes) × (db.get s (peer ++ id) ≡ ok buf)
        × (codecs.message.unmarshal buf ≡ (m, none))
  unfolding box_of stored decoded
  box_of-some s peer id m (ok buf) got h =
      (buf, got, whole (codecs.message.unmarshal buf) (rw got at h))
    where
      whole : (p : Message × Error) → decoded p ≡ some m → p ≡ (m, none)
      whole (x, none) e = cc
      whole (x, some err') e = cc
  box_of-some s peer id m (err e) got h = let no_box : none ≡ some m = rw got at h in cc
  box_of-some s peer id m panic got h = let no_box : none ≡ some m = rw got at h in cc

  some-box_of :
      (s : S) (peer id buf : Bytes) (m : Message)
      → db.get s (peer ++ id) ≡ ok buf
      → codecs.message.unmarshal buf ≡ (m, none)
      → box_of db codecs s peer id ≡ some m
  unfolding box_of stored decoded
  some-box_of s peer id buf m got e = rw got (rw e refl)

  module _ (iterator : IteratorLaws db) where
    -- After any puts and cleans that the handlers served, a query for a peer is answered with the messages
    -- of its box, those under an empty id excepted, in the order of their timestamps; and its box is what
    -- it was before with each request applied in turn: a normal or group message to the peer takes its
    -- id, a clean for the peer frees the ids that it names, and no other request changes it. All requests
    -- are for peer ids of the length of this one and within the limits of size.
    pub do_query_msg-apply_all :
        (rs : List Request) (s : S) (jid : Jid)
        → All (IsOrderly codecs formats (peerid jid)) rs
        → let answer = (do_query_msg db codecs (serve_all db codecs formats rs s) jid).messages in
          ((m : Message)
            → Memᴰ m answer ↔ (
                (id : Bytes) × (id ≢ [])
                × (apply_all (peerid jid) rs (box_of db codecs s (peerid jid)) id ≡ some m)))
          × IsSorted answer
    do_query_msg-apply_all rs s jid h =
        let (queried, sorted) =
          do_query_msg_lem db iterator codecs (serve_all db codecs formats rs s) jid in
        let same = serve_all-apply_all rs s (peerid jid) h in
        (
          λ m. (
            λ there.
                (let (id, buf, some_id, got, value) = (queried m).0 there in
                  (
                    id,
                    some_id,
                    sym (ap (λ (b : Box). b id) same)
                        ∙ some-box_of (serve_all db codecs formats rs s) (peerid jid) id buf m got
                            value,
                  )),
            λ held.
                (let (id, some_id, box) = held in
                  let (buf, got, value) =
                    box_of-some (serve_all db codecs formats rs s) (peerid jid) id m _ refl
                      (ap (λ (b : Box). b id) same ∙ box) in
                  (queried m).1 (id, buf, some_id, got, value)),
          ),
          sorted,
        )
