-- ===== src/Rpc/Members.antt =====
-- rpc/types.go: `Members`, sorted by id, and their hash. sha1 is a parameter: `sum` gives it of what was
-- written. No pointer in the list is nil.
use mathlib.Core.List.{Permᴰ}
use mathlib.Core.Path.{subst}
use go_achat_node.Prelude.{
  ◌≡◌, refl, sym, ap, ◌∙◌, Bool, true, false, Bool-cases, inl, inr, List, [], ◌∷◌, ◌++◌, map, Bytes,
  ltb, ◌==◌, if◌then◌else◌, arith,
}
use go_achat_node.Types.{Jid}

pub record Member : Type 0 where
  pub id : Jid
  pub name : Bytes

-- `bytes.Compare(a, b) < 0`
unfoldable pub before : Bytes → Bytes → Bool
before [] [] = false
before [] (y ∷ ys) = true
before (x ∷ xs) [] = false
before (x ∷ xs) (y ∷ ys) =
    let rest = before xs ys in if ltb x y then true else if x == y then rest else false

-- `Less`
unfoldable pub less_member : Member → Member → Bool
less_member m n = before m.id n.id

unfoldable pub insert_member : Member → List Member → List Member
insert_member m [] = m ∷ []
insert_member m (n ∷ ms) =
    let rest = insert_member m ms in if less_member n m then n ∷ rest else m ∷ n ∷ ms

-- `sort.Sort`; members of one id may come in either order
unfoldable pub sort_members : List Member → List Member
unfolding insert_member
sort_members [] = []
sort_members (m ∷ ms) = insert_member m (sort_members ms)

unfoldable pub written_ids : List Member → Bytes
written_ids [] = []
written_ids (m ∷ ms) = m.id ++ written_ids ms

-- `Hash`, and the order in which it leaves the members.
unfoldable pub hash : (Bytes → Bytes) → List Member → Bytes × List Member
unfolding sort_members written_ids
hash sum ms = let sorted = sort_members ms in (sum (written_ids sorted), sorted)

before_asym : (a b : Bytes) → before a b ≡ true → before b a ≡ false
unfolding before
before_asym [] [] h = refl
before_asym [] (y ∷ ys) h = refl
before_asym (x ∷ xs) [] h = cc
before_asym (x ∷ xs) (y ∷ ys) h = ground (arith, before_asym xs ys)

before_total : (a b : Bytes) → before a b ≡ false → before b a ≡ false → a ≡ b
unfolding before
before_total [] [] h k = refl
before_total [] (y ∷ ys) h k = cc
before_total (x ∷ xs) [] h k = cc
before_total (x ∷ xs) (y ∷ ys) h k = ground (arith, before_total xs ys)

before_le : (a b c : Bytes) → before c b ≡ false → before c a ≡ true → before b a ≡ true
unfolding before
before_le a [] [] h k = k
before_le a (y ∷ ys) [] h k = cc
before_le [] b (z ∷ zs) h k = cc
before_le (x ∷ xs) [] (z ∷ zs) h k = refl
before_le (x ∷ xs) (y ∷ ys) (z ∷ zs) h k = ground (arith, before_le xs ys zs)

-- The ids alone, sorted.
insert_id : Bytes → List Bytes → List Bytes
insert_id a [] = a ∷ []
insert_id a (b ∷ l) = let rest = insert_id a l in if before b a then b ∷ rest else a ∷ b ∷ l

sort_ids : List Bytes → List Bytes
sort_ids [] = []
sort_ids (a ∷ l) = insert_id a (sort_ids l)

insert_id_comm :
    (a b : Bytes) (l : List Bytes) → insert_id a (insert_id b l) ≡ insert_id b (insert_id a l)
unfolding insert_id
insert_id_comm a b [] = elim (Bool-cases (before b a)) [
  | inl e ↦ rw (e, before_asym b a e) refl
  | inr e ↦ (elim (Bool-cases (before a b)) [
    | inl f ↦ rw (e, f) refl
    | inr f ↦ rw (before_total a b f e) refl
  ])
]
insert_id_comm a b (c ∷ l) = elim (Bool-cases (before c a)) [
  | inl e ↦ (elim (Bool-cases (before c b)) [
    | inl f ↦ rw (e, f) (rw e (ap (λ (r : List Bytes). c ∷ r) (insert_id_comm a b l)))
    | inr f ↦ (let g = before_le a b c f e in simp (e, f, g))
  ])
  | inr e ↦ (elim (Bool-cases (before c b)) [
    | inl f ↦ (let g = before_le b a c e f in simp (e, f, g))
    | inr f ↦ (elim (Bool-cases (before b a)) [
      | inl g ↦ simp (e, f, g, before_asym b a g)
      | inr g ↦ (elim (Bool-cases (before a b)) [
        | inl h ↦ simp (e, f, g, h)
        | inr h ↦
            subst (λ x. insert_id a (insert_id x (c ∷ l)) ≡ insert_id x (insert_id a (c ∷ l)))
              (before_total a b h g) refl
      ])
    ])
  ])
]

abbrev ids_of : List Member → List Bytes
ids_of ms = map (λ m. m.id) ms

ids_of-insert_member :
    (m : Member) (ms : List Member) → ids_of (insert_member m ms) ≡ insert_id m.id (ids_of ms)
unfolding insert_member insert_id less_member
ids_of-insert_member m [] = refl
ids_of-insert_member m (n ∷ ms) = elim (Bool-cases (before n.id m.id)) [
  | inl e ↦ rw e (ap (λ (l : List Bytes). n.id ∷ l) (ids_of-insert_member m ms))
  | inr e ↦ rw e refl
]

ids_of-sort_members : (ms : List Member) → ids_of (sort_members ms) ≡ sort_ids (ids_of ms)
unfolding sort_members sort_ids
ids_of-sort_members [] = refl
ids_of-sort_members (m ∷ ms) =
    ids_of-insert_member m (sort_members ms) ∙ ap (insert_id m.id) (ids_of-sort_members ms)

sort_ids-Perm : {ms ns : List Member} → Permᴰ ms ns → sort_ids (ids_of ms) ≡ sort_ids (ids_of ns)
unfolding sort_ids
sort_ids-Perm Permᴰ.nil = refl
sort_ids-Perm (Permᴰ.cons {b = b} {l₁ = l} e p) =
    ap (λ (m : Member). insert_id m.id (sort_ids (ids_of l))) e
    ∙ ap (insert_id b.id) (sort_ids-Perm p)
sort_ids-Perm (Permᴰ.swap {a = a} {b = b} {l = l} e f) =
    rw (← e, ← f) (insert_id_comm a.id b.id (sort_ids (ids_of l)))
sort_ids-Perm (Permᴰ.trans p q) = sort_ids-Perm p ∙ sort_ids-Perm q

concat : List Bytes → Bytes
concat [] = []
concat (a ∷ l) = a ++ concat l

written_ids-concat : (ms : List Member) → written_ids ms ≡ concat (ids_of ms)
unfolding written_ids concat
written_ids-concat [] = refl
written_ids-concat (m ∷ ms) = ap (λ (b : Bytes). m.id ++ b) (written_ids-concat ms)

-- Members in another order have the same hash, whatever is hashed with.
pub hash-Perm :
    (sum : Bytes → Bytes) (ms ns : List Member) → Permᴰ ms ns → (hash sum ms).0 ≡ (hash sum ns).0
unfolding hash
hash-Perm sum ms ns p = ap sum (
    written_ids-concat (sort_members ms)
    ∙ ap concat (ids_of-sort_members ms ∙ sort_ids-Perm p ∙ sym (ids_of-sort_members ns))
    ∙ sym (written_ids-concat (sort_members ns)))
