-- ===== src/Mailbox/Contents.antt =====
-- What a query gives: the messages under the receiver's prefix, oldest first.
use mathlib.Core.List.Memᴰ
use go_achat_node.Prelude.{
  ◌≡◌, ◌≢◌, ◌↔◌, ◌⊎◌, refl, sym, ◌∙◌, inl, inr, true, Bool-cases, none, some, List, [], ◌∷◌, ◌++◌,
  Memᴰ, Bytes, Error, ok, ap,
}
use go_achat_node.Ldb.{Database, new_table, kfilter}
use go_achat_node.Ldb.Laws.{IteratorLaws}
use go_achat_node.Ldb.Table.{kfilter_iff}
use go_achat_node.Types.{Jid, Message, MessageList, peerid}
use go_achat_node.Types.Sorting.{IsSorted, sort-IsSorted, mem-sort_iff}
use go_achat_node.Mailbox.{MailCodecs, keep, collect, do_query_msg}

module _ (codecs : MailCodecs) where
  -- A pair that a query takes, with the message that it decodes to.
  abbrev Taken : Bytes → List (Bytes × Bytes) → Message → Type 0
  Taken id it m =
      (k : Bytes) × (v : Bytes) × Memᴰ (k, v) it
      × (kfilter id k ≡ true)
      × (codecs.message.unmarshal v ≡ (m, none))

  Taken-later :
      (id : Bytes) (p : Bytes × Bytes) (it : List (Bytes × Bytes)) (m : Message)
      → Taken id it m
      → Taken id (p ∷ it) m
  Taken-later id p it m (k, v, at, fits, value) = (k, v, Memᴰ.tail at, fits, value)

  mem-keep : (m n : Message) (sl : MessageList) (e : Error) → Memᴰ m sl → Memᴰ m (keep (n, e) sl)
  unfolding keep
  mem-keep m n sl none h = Memᴰ.tail h
  mem-keep m n sl (some e) h = h

  mem-collect :
      (id : Bytes) (it : List (Bytes × Bytes)) (m : Message) (k v : Bytes)
      → Memᴰ (k, v) it
      → kfilter id k ≡ true
      → codecs.message.unmarshal v ≡ (m, none)
      → Memᴰ m (collect codecs id it)
  unfolding collect
  mem-collect id [] m k v h fits value = absurd (Memᴰ.not-nil h)
  mem-collect id ((k', v') ∷ it) m k v (Memᴰ.head p) fits value =
      rw (← ap (λ (q : Bytes × Bytes). q.0) p, fits, ← ap (λ (q : Bytes × Bytes). q.1) p, value)
        (Memᴰ.head refl)
  mem-collect id ((k', v') ∷ it) m k v (Memᴰ.tail t) fits value =
      let rest = mem-collect id it m k v t fits value in
      elim (Bool-cases (kfilter id k')) [
        | inl e ↦
            rw e (mem-keep m (codecs.message.unmarshal v').0 _ (codecs.message.unmarshal v').1 rest)
        | inr e ↦ rw e rest
      ]

  mem_of_keep :
      (m : Message) (u : Message × Error) (sl : MessageList)
      → Memᴰ m (keep u sl)
      → (u ≡ (m, none)) ⊎ Memᴰ m sl
  unfolding keep
  mem_of_keep m (n, none) sl (Memᴰ.head p) = inl (ap (λ (x : Message). (x, none)) (sym p))
  mem_of_keep m (n, none) sl (Memᴰ.tail t) = inr t
  mem_of_keep m (n, some e) sl h = inr h

  Taken-of_mem :
      (id : Bytes) (it : List (Bytes × Bytes)) (m : Message)
      → Memᴰ m (collect codecs id it)
      → Taken id it m
  unfolding collect
  Taken-of_mem id [] m h = absurd (Memᴰ.not-nil h)
  Taken-of_mem id ((k, v) ∷ it) m h = elim (Bool-cases (kfilter id k)) [
    | inr e ↦ Taken-later id (k, v) it m (Taken-of_mem id it m (rw e at h))
    | inl e ↦
        (elim (mem_of_keep m (codecs.message.unmarshal v) (collect codecs id it) (rw e at h)) [
          | inl value ↦ (k, v, Memᴰ.head refl, e, value)
          | inr t ↦ Taken-later id (k, v) it m (Taken-of_mem id it m t)
        ])
  ]

module _ {S : Type 0} (db : Database S) (iterator : IteratorLaws db) (codecs : MailCodecs) (s : S)
    (jid : Jid) where
  -- A query for `jid` gives exactly the messages that are stored under a key of the peer id of
  -- `jid` with at least one byte behind it, and decode; and it gives them in the order of their
  -- timestamps.
  pub do_query_msg_lem :
      ((m : Message)
        → Memᴰ m (do_query_msg db codecs s jid).messages ↔ (
            (id : Bytes) × (buf : Bytes) × (id ≢ [])
            × (db.get s (peerid jid ++ id) ≡ ok buf)
            × (codecs.message.unmarshal buf ≡ (m, none))))
      × IsSorted (do_query_msg db codecs s jid).messages
  unfolding do_query_msg new_table
  do_query_msg_lem = (
    λ m. (λ h. there m ((mem-sort_iff m _).0 h), λ h. (mem-sort_iff m _).1 (back m h)),
    sort-IsSorted (collect codecs (peerid jid) (db.new_iterator s)),
  )
    where
      there :
          (m : Message)
          → Memᴰ m (collect codecs (peerid jid) (db.new_iterator s))
          → (id : Bytes) × (buf : Bytes) × (id ≢ [])
            × (db.get s (peerid jid ++ id) ≡ ok buf)
            × (codecs.message.unmarshal buf ≡ (m, none))
      there m h =
          let (k, v, at, fits, value) = Taken-of_mem codecs (peerid jid) (db.new_iterator s) m h in
          let (id, some_id, split) = (kfilter_iff (peerid jid) k).0 fits in
          (id, v, some_id, ap (db.get s) (sym split) ∙ (iterator.visits s k v).0 at, value)

      back :
          (m : Message)
          → ((id : Bytes) × (buf : Bytes) × (id ≢ [])
              × (db.get s (peerid jid ++ id) ≡ ok buf)
              × (codecs.message.unmarshal buf ≡ (m, none)))
          → Memᴰ m (collect codecs (peerid jid) (db.new_iterator s))
      back m (id, buf, some_id, got, value) =
          mem-collect codecs (peerid jid) (db.new_iterator s) m (peerid jid ++ id) buf
            ((iterator.visits s (peerid jid ++ id) buf).1 got)
            ((kfilter_iff (peerid jid) (peerid jid ++ id)).1 (id, some_id, refl)) value
