-- ===== src/Types/Jid.antt =====
-- `NewJID`, `Peerid` and `Mailid` of types.go.
use mathlib.Core.List.{append-nil}
use go_achat_node.Prelude.{
  ℕ, ◌≤◌, ◌<◌, ◌≡◌, ◌⊎◌, inl, inr, refl, sym, ap, ◌∙◌, [], ◌∷◌, ◌++◌, Bytes, beq, length, take,
  drop, length-append, length-take, length-drop, take-append, drop-append, take-append-drop, arith,
  Bool-cases, ltb, false,
}
use go_achat_node.Types.{Jid, new_jid, peerid, mailid}

take_at : (n : ℕ) (xs ys : Bytes) → length xs ≡ n → take n (xs ++ ys) ≡ xs
take_at n xs ys h = rw (← h) (take-append xs ys)

drop_at : (n : ℕ) (xs ys : Bytes) → length xs ≡ n → drop n (xs ++ ys) ≡ ys
drop_at n xs ys h = rw (← h) (drop-append xs ys)

take_all : (n : ℕ) (xs : Bytes) → length xs ≡ n → take n xs ≡ xs
take_all n xs h = ap (λ (ys : Bytes). take n ys) (sym (append-nil xs)) ∙ take_at n xs [] h

new_jid_joined : (id mailbox : Bytes) → length mailbox ≡ 53 → new_jid id mailbox ≡ id ++ mailbox
unfolding new_jid beq
new_jid_joined id [] h = absurd (omega arith)
new_jid_joined id (b ∷ mailbox) h = refl

new_jid_alone : (id : Bytes) → new_jid id [] ≡ id
unfolding new_jid beq
new_jid_alone id = refl

peerid-length : (i : Jid) → (length (peerid i) ≡ 53) ⊎ (peerid i ≡ [])
unfolding peerid
peerid-length i = ground (arith, length-take 53 i)

room_for_mailid : (i : Jid) → ltb (length i) 106 ≡ false → 53 ≤ length (drop 53 i)
room_for_mailid i e = let h : 106 ≤ length i = ground arith in omega (arith, length-drop 53 i)

mailid-length : (i : Jid) → (length (mailid i) ≡ 53) ⊎ (mailid i ≡ [])
unfolding mailid
mailid-length i = elim (Bool-cases (ltb (length i) 106)) [
  | inl e ↦ inr (rw e)
  | inr e ↦ inl (rw e (length-take 53 (drop 53 i) (room_for_mailid i e)))
]

peerid_long : (i : Jid) → 53 ≤ length i → peerid i ≡ take 53 i
unfolding peerid
peerid_long i h = ground arith

mailid_long : (i : Jid) → 106 ≤ length i → mailid i ≡ take 53 (drop 53 i)
unfolding mailid
mailid_long i h = ground arith

mailid_short : (i : Jid) → length i < 106 → mailid i ≡ []
unfolding mailid
mailid_short i h = ground arith

-- A peer id of 53 bytes and a mailbox id of 53 bytes come back from the JID that joins them; with
-- an empty mailbox id the peer id comes back, and no mailbox id.
pub jid_round_trip :
    (id mailbox : Bytes)
    → length id ≡ 53
    → (length mailbox ≡ 53) ⊎ (mailbox ≡ [])
    → (peerid (new_jid id mailbox) ≡ id) × (mailid (new_jid id mailbox) ≡ mailbox)
jid_round_trip id mailbox h (inl m) =
    let full : 106 ≤ length (id ++ mailbox) = omega (arith, length-append id mailbox) in
    let joined : new_jid id mailbox ≡ id ++ mailbox = new_jid_joined id mailbox m in
    rw (joined, peerid_long (id ++ mailbox) (omega arith), mailid_long (id ++ mailbox) full)
      (take_at 53 id mailbox h, rw (drop_at 53 id mailbox h) (take_all 53 mailbox m))
jid_round_trip id mailbox h (inr m) =
    let alone : new_jid id mailbox ≡ id = rw m (new_jid_alone id) in
    rw (alone, peerid_long id (omega arith), mailid_short id (omega arith))
      (take_all 53 id h, sym m)

-- Whatever the JID, `Peerid` has 53 bytes or none, and so has `Mailid`.
pub jid_parts :
    (i : Jid)
    → ((length (peerid i) ≡ 53) ⊎ (peerid i ≡ [])) × ((length (mailid i) ≡ 53) ⊎ (mailid i ≡ []))
jid_parts i = (peerid-length i, mailid-length i)

-- A JID of 106 bytes is put together again from its two parts.
pub new_jid-parts : (i : Jid) → length i ≡ 106 → new_jid (peerid i) (mailid i) ≡ i
new_jid-parts i h =
    let rest : length (drop 53 i) ≡ 53 = omega (arith, length-drop 53 i) in
    rw (peerid_long i (omega arith), mailid_long i (omega arith), take_all 53 (drop 53 i) rest)
      (new_jid_joined (take 53 i) (drop 53 i) rest ∙ take-append-drop 53 i)
