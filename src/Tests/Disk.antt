-- ===== src/Tests/Disk.antt =====
-- A store of pairs, newest first, that behaves as LevelDB documents.
use mathlib.Core.List.Memᴰ
use go_achat_node.Prelude.{
  ◌≡◌, ◌≢◌, panic, refl, false, Bool-cases, inl, inr, List, [], ◌∷◌, Memᴰ, Bytes, codes, beq,
  beq→eq, beq_refl, if◌then◌else◌, Outcome, ok, err, Exec, arith,
}
use go_achat_node.Ldb.{LevelDb, Database, ldb_database}
use go_achat_node.Ldb.Laws.{DatabaseLaws, IteratorLaws, LevelDbLaws, is_found}

abbrev pub Disk : Type 0
Disk = List (Bytes × Bytes)

abbrev pub missing : Bytes
missing = codes "leveldb: not found"

unfoldable pub lookup : Disk → Bytes → Outcome Bytes
lookup [] k = err missing
lookup ((j, v) ∷ s) k = if beq j k then ok v else lookup s k

unfoldable pub without : Disk → Bytes → Disk
without [] k = []
without ((j, v) ∷ s) k = let rest = without s k in if beq k j then rest else (j, v) ∷ rest

-- The pairs that an iterator visits: under each key the newest one.
unfoldable pub entries : Disk → Disk
entries [] = []
entries ((k, v) ∷ s) = (k, v) ∷ without (entries s) k

unfoldable pub write : Disk → Exec Disk (Unit {0})
write [] s = (ok tt, s)
write ((k, v) ∷ rest) s = write rest ((k, v) ∷ s)

abbrev pub level : LevelDb Disk
level = record {
  get = lookup;
  has = λ s k. ok (is_found (lookup s k));
  put = λ k v s. (ok tt, (k, v) ∷ s);
  delete = λ k s. (ok tt, without s k);
  entries = entries;
  write = write;
}

abbrev pub disk : Database Disk
disk = ldb_database level

pub lookup-without :
    (s : Disk) (k j : Bytes)
    → lookup (without s k) j ≡ (if beq k j then err missing else lookup s j)
unfolding lookup without
lookup-without [] k j = ground arith
lookup-without ((i, v) ∷ s) k j = elim (Bool-cases (beq k i)) [
  | inl e ↦ rw (e, lookup-without s k j, beq→eq k i e) (ground arith)
  | inr e ↦ (elim (Bool-cases (beq i j)) [
    | inl f ↦ (let g : beq k j ≡ false = rw (← beq→eq i j f) e in rw (e, f, g) refl)
    | inr f ↦ rw (e, f) (lookup-without s k j)
  ])
]

mem_of_without :
    (s : Disk) (i : Bytes) (p : Bytes × Bytes)
    → Memᴰ p (without s i)
    → Memᴰ p s × (beq i p.0 ≡ false)
unfolding without
mem_of_without [] i p h = absurd (Memᴰ.not-nil h)
mem_of_without (q ∷ s) i p h = elim (Bool-cases (beq i q.0)) [
  | inl e ↦ (let (m, f) = mem_of_without s i p (rw e at h) in (Memᴰ.tail m, f))
  | inr e ↦ later e (rw e at h) (mem_of_without s i p)
]
  where
    later :
        beq i q.0 ≡ false
        → Memᴰ p (q ∷ without s i)
        → (Memᴰ p (without s i) → Memᴰ p s × (beq i p.0 ≡ false))
        → Memᴰ p (q ∷ s) × (beq i p.0 ≡ false)
    later e (Memᴰ.head r) go = (Memᴰ.head r, rw r e)
    later e (Memᴰ.tail t) go = let (m, f) = go t in (Memᴰ.tail m, f)

mem-without :
    (s : Disk) (i : Bytes) (p : Bytes × Bytes) → Memᴰ p s → beq i p.0 ≡ false → Memᴰ p (without s i)
unfolding without
mem-without (q ∷ s) i p (Memᴰ.head r) f = rw (← r, f) (Memᴰ.head refl)
mem-without (q ∷ s) i p (Memᴰ.tail t) f =
    let rest = mem-without s i p t f in
    elim (Bool-cases (beq i q.0)) [ inl e ↦ rw e rest | inr e ↦ rw e (Memᴰ.tail rest) ]
mem-without [] i p h f = absurd (Memᴰ.not-nil h)

lookup_of_mem : (s : Disk) (p : Bytes × Bytes) → Memᴰ p (entries s) → lookup s p.0 ≡ ok p.1
unfolding lookup entries
lookup_of_mem [] p h = absurd (Memᴰ.not-nil h)
lookup_of_mem (q ∷ s) p (Memᴰ.head r) = rw (r, beq_refl q.0) refl
lookup_of_mem (q ∷ s) p (Memᴰ.tail t) =
    let (m, f) = mem_of_without (entries s) q.0 p t in rw f (lookup_of_mem s p m)

mem_of_lookup : (s : Disk) (k v : Bytes) → lookup s k ≡ ok v → Memᴰ (k, v) (entries s)
unfolding lookup entries
mem_of_lookup [] k v h = cc
mem_of_lookup (q ∷ s) k v h = elim (Bool-cases (beq q.0 k)) [
  | inl e ↦
      (let same : ok q.1 ≡ ok v = rw e at h in
        let same' : q.1 ≡ v = cc in let key : q.0 ≡ k = beq→eq q.0 k e in Memᴰ.head (cc))
  | inr e ↦ Memᴰ.tail (mem-without (entries s) q.0 (k, v) (mem_of_lookup s k v (rw e at h)) e)
]

pub lookup-calm : (s : Disk) (k : Bytes) → lookup s k ≢ panic
unfolding lookup
lookup-calm [] k h = cc
lookup-calm ((j, v) ∷ s) k h = elim (Bool-cases (beq j k)) [
  | inl e ↦ (let found = rw e at h in cc)
  | inr e ↦ lookup-calm s k (rw e at h)
]

unfoldable pub disk-DatabaseLaws : DatabaseLaws disk
unfolding ldb_database lookup
disk-DatabaseLaws = record {
  not_found = missing;
  stored = λ s k v. (k, v) ∷ s;
  removed = without;
  put_eq = λ k v s. refl;
  delete_eq = λ k s. refl;
  get-stored = λ s k v j. refl;
  get-removed = lookup-without;
  get_calm = lookup-calm;
  has_eq = λ s k. refl;
}

pub disk-IteratorLaws : IteratorLaws disk
unfolding ldb_database
disk-IteratorLaws = record { visits = λ s k v. (lookup_of_mem s (k, v), mem_of_lookup s k v) }

pub level-LevelDbLaws : LevelDbLaws level
unfolding write disk-DatabaseLaws
level-LevelDbLaws = record {
  database = disk-DatabaseLaws;
  iterator = disk-IteratorLaws;
  write_nil = λ s. refl;
  write_cons = λ k v rest s. refl;
}
