-- ===== src/Types/Sorting.antt =====
-- `sort.Sort` on a `MessageList`. The order in which Go leaves messages of equal `Ct` is not
-- specified; insertion sort by `Less` is one of its results.
use mathlib.Core.List.{Perm, Memᴰ}
use mathlib.Core.List.Memᴰ
use mathlib.Core.List.Perm
use go_achat_node.Prelude.{
  ◌≡◌, ◌↔◌, inl, inr, true, false, Bool-cases, [], ◌∷◌, ◌≤ℤ◌, All, if◌then◌else◌, arith,
}
use go_achat_node.Types.{Message, MessageList, less}

unfoldable pub insert_sorted : Message → MessageList → MessageList
insert_sorted m [] = m ∷ []
insert_sorted m (n ∷ ns) = if less n m then n ∷ insert_sorted m ns else m ∷ n ∷ ns

unfoldable pub sort : MessageList → MessageList
unfolding insert_sorted
sort [] = []
sort (m ∷ ms) = insert_sorted m (sort ms)

-- No message is followed by an older one.
abbrev pub IsSorted : MessageList → Type 0
IsSorted [] = Unit
IsSorted (m ∷ ms) = All (λ n. m.envelope.ct ≤ℤ n.envelope.ct) ms × IsSorted ms

insert_sorted-perm : (m : Message) (ms : MessageList) → Perm (insert_sorted m ms) (m ∷ ms)
unfolding insert_sorted
insert_sorted-perm m [] = Perm.refl (m ∷ [])
insert_sorted-perm m (n ∷ ns) = elim (Bool-cases (less n m)) [
  | inl e ↦ rw e (Perm.trans (Perm.cons n (insert_sorted-perm m ns)) (Perm.swap m n ns))
  | inr e ↦ rw e (Perm.refl (m ∷ n ∷ ns))
]

pub sort-perm : (ms : MessageList) → Perm (sort ms) ms
unfolding sort
sort-perm [] = Perm.refl []
sort-perm (m ∷ ms) = Perm.trans (insert_sorted-perm m (sort ms)) (Perm.cons m (sort-perm ms))

le_of_less : (n m : Message) → less n m ≡ true → n.envelope.ct ≤ℤ m.envelope.ct
unfolding less
le_of_less n m h = ground arith

le_of_not_less : (n m : Message) → less n m ≡ false → m.envelope.ct ≤ℤ n.envelope.ct
unfolding less
le_of_not_less n m h = ground arith

All-insert_sorted :
    (P : Message → Type 0) (m : Message) (ns : MessageList)
    → P m
    → All P ns
    → All P (insert_sorted m ns)
unfolding insert_sorted
All-insert_sorted P m [] p h = (p, tt)
All-insert_sorted P m (n ∷ ns) p h = elim (Bool-cases (less n m)) [
  | inl e ↦ rw e (h.0, All-insert_sorted P m ns p h.1)
  | inr e ↦ rw e (p, h)
]

All-weaken :
    (m n : Message) (ns : MessageList)
    → m.envelope.ct ≤ℤ n.envelope.ct
    → All (λ k. n.envelope.ct ≤ℤ k.envelope.ct) ns
    → All (λ k. m.envelope.ct ≤ℤ k.envelope.ct) ns
All-weaken m n [] h a = tt
All-weaken m n (k ∷ ns) h a = (omega arith, All-weaken m n ns h a.1)

insert_sorted-IsSorted :
    (m : Message) (ns : MessageList) → IsSorted ns → IsSorted (insert_sorted m ns)
unfolding insert_sorted
insert_sorted-IsSorted m [] h = (tt, tt)
insert_sorted-IsSorted m (n ∷ ns) h = elim (Bool-cases (less n m)) [
  | inl e ↦ rw e (
    All-insert_sorted (λ k. n.envelope.ct ≤ℤ k.envelope.ct) m ns (le_of_less n m e) h.0,
    insert_sorted-IsSorted m ns h.1,
  )
  | inr e ↦ let le = le_of_not_less n m e in rw e ((le, All-weaken m n ns le h.0), h)
]

pub sort-IsSorted : (ms : MessageList) → IsSorted (sort ms)
unfolding sort
sort-IsSorted [] = tt
sort-IsSorted (m ∷ ms) = insert_sorted-IsSorted m (sort ms) (sort-IsSorted ms)

-- Sorting keeps each message, and adds none.
mem_of_insert_sorted :
    (x m : Message) (ns : MessageList) → Memᴰ x (insert_sorted m ns) → Memᴰ x (m ∷ ns)
unfolding insert_sorted
mem_of_insert_sorted x m [] h = h
mem_of_insert_sorted x m (n ∷ ns) h = elim (Bool-cases (less n m)) [
  | inl e ↦ (elim (Memᴰ.cases_cons (rw (e, insert_sorted) at h)) [
    | inl p ↦ Memᴰ.tail (Memᴰ.head p)
    | inr t ↦ skip x m n ns (mem_of_insert_sorted x m ns t)
  ])
  | inr e ↦ rw (e, insert_sorted) at h
]
  where
    skip : (x m n : Message) (ns : MessageList) → Memᴰ x (m ∷ ns) → Memᴰ x (m ∷ n ∷ ns)
    skip x m n ns (Memᴰ.head p) = Memᴰ.head p
    skip x m n ns (Memᴰ.tail t) = Memᴰ.tail (Memᴰ.tail t)

mem-insert_sorted :
    (x m : Message) (ns : MessageList) → Memᴰ x (m ∷ ns) → Memᴰ x (insert_sorted m ns)
unfolding insert_sorted
mem-insert_sorted x m [] h = h
mem-insert_sorted x m (n ∷ ns) h = elim (Bool-cases (less n m)) [
  | inl e ↦ rw e (turn x m n ns (mem-insert_sorted x m ns) h)
  | inr e ↦ rw e h
]
  where
    turn :
        (x m n : Message) (ns : MessageList)
        → (Memᴰ x (m ∷ ns) → Memᴰ x (insert_sorted m ns))
        → Memᴰ x (m ∷ n ∷ ns)
        → Memᴰ x (n ∷ insert_sorted m ns)
    turn x m n ns f (Memᴰ.head p) = Memᴰ.tail (f (Memᴰ.head p))
    turn x m n ns f (Memᴰ.tail (Memᴰ.head p)) = Memᴰ.head p
    turn x m n ns f (Memᴰ.tail (Memᴰ.tail t)) = Memᴰ.tail (f (Memᴰ.tail t))

pub mem-sort_iff : (x : Message) (ms : MessageList) → Memᴰ x (sort ms) ↔ Memᴰ x ms
unfolding sort
mem-sort_iff x [] = ((λ h. h), (λ h. h))
mem-sort_iff x (m ∷ ms) = (there (mem-sort_iff x ms).0, back (mem-sort_iff x ms).1)
  where
    there : (Memᴰ x (sort ms) → Memᴰ x ms) → Memᴰ x (insert_sorted m (sort ms)) → Memᴰ x (m ∷ ms)
    there f h = elim (Memᴰ.cases_cons (mem_of_insert_sorted x m (sort ms) h)) [
      | inl p ↦ Memᴰ.head p
      | inr t ↦ Memᴰ.tail (f t)
    ]

    back : (Memᴰ x ms → Memᴰ x (sort ms)) → Memᴰ x (m ∷ ms) → Memᴰ x (insert_sorted m (sort ms))
    back f (Memᴰ.head p) = mem-insert_sorted x m (sort ms) (Memᴰ.head p)
    back f (Memᴰ.tail t) = mem-insert_sorted x m (sort ms) (Memᴰ.tail (f t))
