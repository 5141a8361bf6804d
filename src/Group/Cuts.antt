-- ===== src/Group/Cuts.antt =====
-- How the writes of `handleMember` change the list where one member goes out.
use go_achat_node.Prelude.{
  ◌≡◌, ◌∙◌, false, Bool-cases, inl, inr, List, [], ◌∷◌, ◌++◌, Bytes, beq, beq_refl, ok, err, arith,
}
use go_achat_node.Types.{Jid}
use go_achat_node.Group.{GroupMember}
use go_achat_node.Group.Chain.{
  View, update, has_id, Distinct, head_id, last_id, linked, Links, IsChain, beq_comm, has_id-append,
  Links-update, Links-append, Links-left, Links-right, Distinct-middle, Distinct-insert,
}

-- What a list without repetitions gives about two neighbours in it and what stands around them.
record Around (xs : List GroupMember) (p x : GroupMember) (ys : List GroupMember) : Type 0 where
  xs_p : has_id xs p.id ≡ false
  xs_x : has_id xs x.id ≡ false
  ys_p : has_id ys p.id ≡ false
  ys_x : has_id ys x.id ≡ false
  x_p : beq x.id p.id ≡ false
  rest : Distinct (xs ++ p ∷ ys)

around :
    (xs : List GroupMember) (p x : GroupMember) (ys : List GroupMember)
    → Distinct (xs ++ p ∷ x ∷ ys)
    → Around xs p x ys
around xs p x ys d =
    let (xs_p, ys_p, d') = Distinct-middle xs p (x ∷ ys) d in
    let (xs_x, ys_x, d'') = Distinct-middle xs x ys d' in
    record {
      xs_p = xs_p;
      xs_x = xs_x;
      ys_p = ground arith;
      ys_x = ys_x;
      x_p = ground arith;
      rest = Distinct-insert xs p ys (ground (arith, has_id-append xs ys p.id)) d'';
    }

-- An id outside the list that is left is the removed one or was outside before.
absent_after :
    (f : View) (xs : List GroupMember) (p x : GroupMember) (ys : List GroupMember) (e : Bytes)
    → IsChain f (xs ++ p ∷ x ∷ ys)
    → (g : View) → ((id : Jid) → has_id (xs ++ p ∷ ys) id ≡ false → g id ≡ f id)
    → (id : Jid) → has_id (xs ++ p ∷ ys) id ≡ false
    → (d : Bytes) × (update x.id (err e) g id ≡ err d)
absent_after f xs p x ys e c g same id out = elim (Bool-cases (beq x.id id)) [
  | inl eq ↦ (e, rw eq)
  | inr ne ↦
      let all = has_id-append xs (p ∷ x ∷ ys) id in
      let left = has_id-append xs (p ∷ ys) id in
      let a = c.absent id (ground arith) in (a.0, rw ne (same id out ∙ a.1))
]

named_after :
    (xs : List GroupMember) (p x : GroupMember) (ys : List GroupMember)
    → has_id (xs ++ p ∷ x ∷ ys) [] ≡ false
    → has_id (xs ++ p ∷ ys) [] ≡ false
named_after xs p x ys h =
    ground (arith, has_id-append xs (p ∷ x ∷ ys) [], has_id-append xs (p ∷ ys) [])

-- A member between `p` and `n` leaves: its neighbours are linked to each other.
module _ (f : View) (xs : List GroupMember) (p x n : GroupMember) (ys : List GroupMember)
    (e : Bytes) where
  abbrev joined : View
  joined =
      update p.id (ok (linked (last_id [] xs) p n.id))
        (update n.id (ok (linked p.id n (head_id ys []))) f)

  abbrev pub bridged : View
  bridged = update x.id (err e) joined

  bridged-Links :
      Around xs p x (n ∷ ys)
      → has_id xs n.id ≡ false
      → has_id ys n.id ≡ false
      → Links f [] (xs ++ p ∷ x ∷ n ∷ ys) []
      → Links bridged [] (xs ++ p ∷ n ∷ ys) []
  bridged-Links a xn ny k =
      let front = Links-left f [] xs (p ∷ x ∷ n ∷ ys) [] k in
      let back = Links-right f [] xs (p ∷ x ∷ n ∷ ys) [] k in
      let g = update n.id (ok (linked p.id n (head_id ys []))) f in
      Links-append bridged [] xs (p ∷ n ∷ ys) []
        (Links-update joined x.id (err e) [] xs p.id a.xs_x (
          Links-update g p.id (ok (linked (last_id [] xs) p n.id)) [] xs p.id a.xs_p
            (Links-update f n.id (ok (linked p.id n (head_id ys []))) [] xs p.id xn front)))
        (
          ground (arith, beq_refl p.id),
          (
            ground (arith, beq_refl n.id, beq_comm n.id x.id, beq_comm n.id p.id),
            Links-update joined x.id (err e) n.id ys [] (ground arith) (
                Links-update g p.id (ok (linked (last_id [] xs) p n.id)) n.id ys [] (ground arith) (
                  Links-update f n.id (ok (linked p.id n (head_id ys []))) n.id ys [] ny
                    back.1.1.1)),
          ),
        )

  joined_same : (id : Jid) → has_id (xs ++ p ∷ n ∷ ys) id ≡ false → joined id ≡ f id
  joined_same id out = ground (arith, has_id-append xs (p ∷ n ∷ ys) id)

  pub IsChain-bridged : IsChain f (xs ++ p ∷ x ∷ n ∷ ys) → IsChain bridged (xs ++ p ∷ n ∷ ys)
  IsChain-bridged c =
      let a = around xs p x (n ∷ ys) c.distinct in
      let (_, _, d) = Distinct-middle xs p (n ∷ ys) a.rest in
      let (xn, ny, _) = Distinct-middle xs n ys d in
      record {
        links = bridged-Links a xn ny c.links;
        distinct = a.rest;
        named = named_after xs p x (n ∷ ys) c.named;
        absent = absent_after f xs p x (n ∷ ys) e c joined joined_same;
      }

-- The last member leaves.
module _ (f : View) (xs : List GroupMember) (p x : GroupMember) (e : Bytes) where
  abbrev ended : View
  ended = update p.id (ok (linked (last_id [] xs) p [])) f

  abbrev pub cut : View
  cut = update x.id (err e) ended

  ended_same : (id : Jid) → has_id (xs ++ p ∷ []) id ≡ false → ended id ≡ f id
  ended_same id out = ground (arith, has_id-append xs (p ∷ []) id)

  pub IsChain-cut : IsChain f (xs ++ p ∷ x ∷ []) → IsChain cut (xs ++ p ∷ [])
  IsChain-cut c =
      let a = around xs p x [] c.distinct in
      let front = Links-left f [] xs (p ∷ x ∷ []) [] c.links in
      record {
        links =
            Links-append cut [] xs (p ∷ []) []
              (Links-update ended x.id (err e) [] xs p.id a.xs_x
                (Links-update f p.id (ok (linked (last_id [] xs) p [])) [] xs p.id a.xs_p front))
              (ground (arith, beq_refl p.id), tt);
        distinct = a.rest;
        named = named_after xs p x [] c.named;
        absent = absent_after f xs p x [] e c ended ended_same;
      }
