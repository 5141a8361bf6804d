-- ===== src/Group/Chain.antt =====
-- The list of members that items make by their links. `f` is what the store shows under each id.
use go_achat_node.Prelude.{
  ◌≡◌, refl, sym, Bool, false, ◌||◌, some, List, [], ◌∷◌, ◌++◌, Bytes, beq, beq_congr,
  if◌then◌else◌, Outcome, ok, err, arith,
}
use go_achat_node.Types.{Jid}
use go_achat_node.Group.{GroupMember, MemberItem, exported}

abbrev pub View : Type 0
View = Jid → Outcome MemberItem

-- A view with one id changed.
abbrev pub update : Jid → Outcome MemberItem → View → View
update x v f id = if beq x id then v else f id

abbrev pub has_id : List GroupMember → Jid → Bool
has_id [] x = false
has_id (m ∷ ms) x = beq m.id x || has_id ms x

abbrev pub Distinct : List GroupMember → Type 0
Distinct [] = Unit
Distinct (m ∷ ms) = (has_id ms m.id ≡ false) × Distinct ms

abbrev pub head_id : List GroupMember → Jid → Jid
head_id [] next = next
head_id (m ∷ ms) next = m.id

abbrev pub last_id : Jid → List GroupMember → Jid
last_id prve [] = prve
last_id prve (m ∷ ms) = last_id m.id ms

-- The item of a member between two ids.
abbrev pub linked : Jid → GroupMember → Jid → MemberItem
linked prve m next = record { id = m.id; prve = prve; next = next; member = some (exported m) }

-- A stretch of the list, from behind `prve` up to `next`.
abbrev pub Links : View → Jid → List GroupMember → Jid → Type 0
Links f prve [] next = Unit
Links f prve (m ∷ ms) next = (f m.id ≡ ok (linked prve m (head_id ms next))) × Links f m.id ms next

-- The items are exactly the members `ms`, linked in that order both ways; no id is empty.
pub record IsChain (f : View) (ms : List GroupMember) : Type 0 where
  pub links : Links f [] ms []
  pub distinct : Distinct ms
  pub named : has_id ms [] ≡ false
  pub absent : (id : Jid) → has_id ms id ≡ false → (e : Bytes) × (f id ≡ err e)

pub beq_comm : (a b : Bytes) → beq a b ≡ beq b a
beq_comm a b = beq_congr a b b a sym sym

pub has_id-append :
    (xs ys : List GroupMember) (x : Jid) → has_id (xs ++ ys) x ≡ (has_id xs x || has_id ys x)
has_id-append [] ys x = refl
has_id-append (m ∷ xs) ys x = ground (arith, has_id-append xs ys x)

-- A change at an id that is not in the stretch.
pub Links-update :
    (f : View) (x : Jid) (v : Outcome MemberItem) (p : Jid) (ms : List GroupMember) (n : Jid)
    → has_id ms x ≡ false
    → Links f p ms n
    → Links (update x v f) p ms n
Links-update f x v p [] n h l = tt
Links-update f x v p (m ∷ ms) n h l =
    (ground (arith, beq_comm m.id x), Links-update f x v m.id ms n (ground arith) l.1)

pub Links-append :
    (f : View) (p : Jid) (xs ys : List GroupMember) (n : Jid)
    → Links f p xs (head_id ys n)
    → Links f (last_id p xs) ys n
    → Links f p (xs ++ ys) n
Links-append f p [] ys n l k = k
Links-append f p (m ∷ []) ys n l k = (l.0, k)
Links-append f p (m ∷ m' ∷ xs) ys n l k = (l.0, Links-append f m.id (m' ∷ xs) ys n l.1 k)

pub Links-left :
    (f : View) (p : Jid) (xs ys : List GroupMember) (n : Jid)
    → Links f p (xs ++ ys) n
    → Links f p xs (head_id ys n)
Links-left f p [] ys n l = tt
Links-left f p (m ∷ []) ys n l = (l.0, tt)
Links-left f p (m ∷ m' ∷ xs) ys n l = (l.0, Links-left f m.id (m' ∷ xs) ys n l.1)

pub Links-right :
    (f : View) (p : Jid) (xs ys : List GroupMember) (n : Jid)
    → Links f p (xs ++ ys) n
    → Links f (last_id p xs) ys n
Links-right f p [] ys n l = l
Links-right f p (m ∷ xs) ys n l = Links-right f m.id xs ys n l.1

-- One member of a list without repetitions is not among the others.
pub Distinct-middle :
    (xs : List GroupMember) (y : GroupMember) (ys : List GroupMember)
    → Distinct (xs ++ y ∷ ys)
    → (has_id xs y.id ≡ false) × (has_id ys y.id ≡ false) × Distinct (xs ++ ys)
Distinct-middle [] y ys h = (refl, h.0, h.1)
Distinct-middle (m ∷ xs) y ys h =
    let (a, b, c) = Distinct-middle xs y ys h.1 in
    (
      ground (arith, has_id-append xs (y ∷ ys) m.id, beq_comm m.id y.id),
      b,
      (ground (arith, has_id-append xs (y ∷ ys) m.id, has_id-append xs ys m.id), c),
    )

pub Distinct-insert :
    (xs : List GroupMember) (y : GroupMember) (ys : List GroupMember)
    → has_id (xs ++ ys) y.id ≡ false
    → Distinct (xs ++ ys)
    → Distinct (xs ++ y ∷ ys)
Distinct-insert [] y ys h d = (h, d)
Distinct-insert (m ∷ xs) y ys h d = (
  ground (arith, has_id-append xs (y ∷ ys) m.id, has_id-append xs ys m.id, beq_comm m.id y.id),
  Distinct-insert xs y ys (ground arith) d.1,
)
