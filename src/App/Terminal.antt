-- ===== src/App/Terminal.antt =====
-- console.go: the completion of the terminal, `SetCompleter`.
use mathlib.Core.List.Memᴰ
use go_achat_node.Prelude.{
  ◌+◌, ◌≡◌, ◌↔◌, sym, Bool, true, ◌&&◌, Bool-cases, inl, inr, List, [], ◌∷◌, ◌++◌, map, Memᴰ, Bytes,
  codes, beq, beq_iff, length, take-append, take-append-drop, length-append, take, drop, leb,
  if◌then◌else◌, arith,
}

-- `Instructs`
unfoldable pub instructs : List Bytes
instructs =
    codes "opensession"
    ∷ codes "close"
    ∷ codes "myid"
    ∷ codes "conns"
    ∷ codes "exit"
    ∷ codes "help"
    ∷ []

-- `strings.ToLower` on ASCII: the names have no other bytes.
unfoldable pub to_lower : Bytes → Bytes
to_lower line = map (λ b. if leb 65 b && leb b 90 then b + 32 else b) line

-- `strings.HasPrefix`
unfoldable pub has_prefix : Bytes → Bytes → Bool
has_prefix s prefix = leb (length prefix) (length s) && beq (take (length prefix) s) prefix

matching : List Bytes → Bytes → List Bytes
matching [] prefix = []
matching (n ∷ names) prefix =
    let rest = matching names prefix in if has_prefix n prefix then n ∷ rest else rest

-- The function that is given to `SetCompleter`.
unfoldable pub complete : Bytes → List Bytes
unfolding matching
complete line = matching instructs (to_lower line)

has_prefix-append : (prefix rest : Bytes) → has_prefix (prefix ++ rest) prefix ≡ true
unfolding has_prefix
has_prefix-append prefix rest = ground (
  arith,
  take-append prefix rest,
  length-append prefix rest,
  beq_iff (take (length prefix) (prefix ++ rest)) prefix,
)

-- A name that starts with a prefix is the prefix and a rest.
append_of_has_prefix :
    (s prefix : Bytes) → has_prefix s prefix ≡ true → (rest : Bytes) × (s ≡ prefix ++ rest)
unfolding has_prefix
append_of_has_prefix s prefix h =
    let cut : prefix ++ drop (length prefix) s ≡ s =
      ground (arith, take-append-drop (length prefix) s, beq_iff (take (length prefix) s) prefix) in
    (drop (length prefix) s, sym cut)

mem-matching :
    (names : List Bytes) (prefix n : Bytes)
    → Memᴰ n (matching names prefix)
    → Memᴰ n names × (has_prefix n prefix ≡ true)
unfolding matching
mem-matching [] prefix n m = absurd (Memᴰ.not-nil m)
mem-matching (x ∷ names) prefix n m = elim (Bool-cases (has_prefix x prefix)) [
  | inl e ↦ head_or_tail e (rw e at m) (mem-matching names prefix n)
  | inr e ↦ let (there, fits) = mem-matching names prefix n (rw e at m) in (Memᴰ.tail there, fits)
]
  where
    head_or_tail :
        has_prefix x prefix ≡ true
        → Memᴰ n (x ∷ matching names prefix)
        → (Memᴰ n (matching names prefix) → Memᴰ n names × (has_prefix n prefix ≡ true))
        → Memᴰ n (x ∷ names) × (has_prefix n prefix ≡ true)
    head_or_tail e (Memᴰ.head q) ih = (Memᴰ.head q, rw q e)
    head_or_tail e (Memᴰ.tail m) ih = let (there, fits) = ih m in (Memᴰ.tail there, fits)

matching-mem :
    (names : List Bytes) (prefix n : Bytes)
    → Memᴰ n names
    → has_prefix n prefix ≡ true
    → Memᴰ n (matching names prefix)
unfolding matching
matching-mem [] prefix n m e = absurd (Memᴰ.not-nil m)
matching-mem (x ∷ names) prefix n (Memᴰ.head q) e =
    let fits : has_prefix x prefix ≡ true = rw (← q) e in rw fits (Memᴰ.head q)
matching-mem (x ∷ names) prefix n (Memᴰ.tail m) e = elim (Bool-cases (has_prefix x prefix)) [
  | inl fits ↦ rw fits (Memᴰ.tail (matching-mem names prefix n m e))
  | inr other ↦ rw other (matching-mem names prefix n m e)
]

-- The completion of a line offers exactly the names that start with it, whatever the case of its
-- letters.
pub complete_lem :
    (line n : Bytes)
    → Memᴰ n (complete line) ↔ (Memᴰ n instructs × ((rest : Bytes) × (n ≡ to_lower line ++ rest)))
unfolding complete
complete_lem line n = (
  λ m.
      (let (there, fits) = mem-matching instructs (to_lower line) n m in
        (there, append_of_has_prefix n (to_lower line) fits)),
  λ h.
      (let (there, (rest, e)) = h in
        matching-mem instructs (to_lower line) n there
          (rw e (has_prefix-append (to_lower line) rest))),
)
