-- ===== src/App/Logging.antt =====
-- main.go: the lists of addresses that `achat` logs, `logStrings` and `logMultiaddrs`.
use mathlib.Core.List.Memᴰ
use go_achat_node.Prelude.{
  ℕ, zero, suc, ◌+◌, ◌≡◌, ◌≢◌, ◌↔◌, refl, ap, ◌∙◌, Bool, ◌&&◌, ◌||◌, Bool-cases, inl, inr, Option,
  none, some, List, [], ◌∷◌, Memᴰ, Bytes, beq, ne_of_beq, beq_ne, length, leb, ◌==◌, if◌then◌else◌,
  arith,
}

-- "<label>.count=<n>" and "<label>[<i>]=<s>"
pub data LogLine : Type 0 where
  count : Bytes → ℕ → LogLine
  entry : Bytes → ℕ → Bytes → LogLine

-- The ASCII bytes that `strings.TrimSpace` takes off.
is_space : ℕ → Bool
is_space b = b == 32 || leb 9 b && leb b 13

spaces_off : Bytes → Bytes
spaces_off [] = []
spaces_off (b ∷ bs) = let rest = spaces_off bs in if is_space b then rest else b ∷ bs

end_off : Bytes → Bytes
end_off [] = []
end_off (b ∷ bs) = let rest = end_off bs in if beq rest [] && is_space b then [] else b ∷ rest

-- `strings.TrimSpace`
unfoldable pub trim_space : Bytes → Bytes
unfolding is_space spaces_off end_off
trim_space s = end_off (spaces_off s)

-- The loop of `logStrings`
unfoldable pub log_entries : Bytes → ℕ → List Bytes → List LogLine
log_entries label i [] = []
log_entries label i (s ∷ ss) =
    let rest = log_entries label (i + 1) ss in
    if beq (trim_space s) [] then rest else entry label i (trim_space s) ∷ rest

-- `logStrings`
unfoldable pub log_strings : Bytes → List Bytes → List LogLine
log_strings label [] = count label 0 ∷ []
log_strings label (s ∷ ss) = count label (length (s ∷ ss)) ∷ log_entries label 0 (s ∷ ss)

-- The loop of `logMultiaddrs`, over the texts of the addresses; nil is `none`.
unfoldable pub log_addrs : Bytes → ℕ → List (Option Bytes) → List LogLine
log_addrs label i [] = []
log_addrs label i (none ∷ addrs) = log_addrs label (i + 1) addrs
log_addrs label i (some a ∷ addrs) = entry label i a ∷ log_addrs label (i + 1) addrs

-- `logMultiaddrs`
unfoldable pub log_multiaddrs : Bytes → List (Option Bytes) → List LogLine
log_multiaddrs label [] = count label 0 ∷ []
log_multiaddrs label (a ∷ addrs) = count label (length (a ∷ addrs)) ∷ log_addrs label 0 (a ∷ addrs)

abbrev pub get_elem? {ℓ} : {A : Type ℓ} → List A → ℕ → Option A
get_elem? [] i = none
get_elem? (x ∷ xs) zero = some x
get_elem? (x ∷ xs) (suc i) = get_elem? xs i

-- What a line of the loop shows: an element that is not blank, with its index.
abbrev Shows : Bytes → ℕ → List Bytes → LogLine → Type 0
Shows label i ss l =
    (k : ℕ) × (x : Bytes) × (get_elem? ss k ≡ some x)
    × (trim_space x ≢ [])
    × (l ≡ entry label (i + k) (trim_space x))

later :
    (label : Bytes) (i : ℕ) (s : Bytes) (ss : List Bytes) (l : LogLine)
    → Shows label (i + 1) ss l
    → Shows label i (s ∷ ss) l
later label i s ss l (k, x, got, some_x, e) =
    let same : i + 1 + k ≡ i + suc k = omega arith in
    (suc k, x, got, some_x, e ∙ ap (λ (n : ℕ). entry label n (trim_space x)) same)

log_entries-Shows :
    (label : Bytes) (i : ℕ) (ss : List Bytes) (l : LogLine)
    → Memᴰ l (log_entries label i ss)
    → Shows label i ss l
unfolding log_entries
log_entries-Shows label i [] l m = absurd (Memᴰ.not-nil m)
log_entries-Shows label i (s ∷ ss) l m = elim (Bool-cases (beq (trim_space s) [])) [
  | inl e ↦ later label i s ss l (log_entries-Shows label (i + 1) ss l (rw e at m))
  | inr e ↦
      first_or_later (ne_of_beq (trim_space s) [] e) (rw e at m)
        (λ t. later label i s ss l (log_entries-Shows label (i + 1) ss l t))
]
  where
    first_or_later :
        trim_space s ≢ []
        → Memᴰ l (entry label i (trim_space s) ∷ log_entries label (i + 1) ss)
        → (Memᴰ l (log_entries label (i + 1) ss) → Shows label i (s ∷ ss) l)
        → Shows label i (s ∷ ss) l
    first_or_later ne (Memᴰ.head q) ih =
        let same : i ≡ i + 0 = omega arith in
        (zero, s, refl, ne, q ∙ ap (λ (n : ℕ). entry label n (trim_space s)) same)
    first_or_later ne (Memᴰ.tail t) ih = ih t

Shows-log_entries :
    (label : Bytes) (i : ℕ) (ss : List Bytes) (k : ℕ) (x : Bytes)
    → get_elem? ss k ≡ some x
    → trim_space x ≢ []
    → Memᴰ (entry label (i + k) (trim_space x)) (log_entries label i ss)
unfolding log_entries
Shows-log_entries label i [] k x got ne = cc
Shows-log_entries label i (s ∷ ss) zero x got ne =
    let same : s ≡ x = cc in
    let index : i + 0 ≡ i = omega arith in
    rw (same, beq_ne (trim_space x) [] ne) (Memᴰ.head (rw index refl))
Shows-log_entries label i (s ∷ ss) (suc k) x got ne =
    let index : i + suc k ≡ i + 1 + k = omega arith in
    let there = Shows-log_entries label (i + 1) ss k x got ne in
    elim (Bool-cases (beq (trim_space s) [])) [
      | inl e ↦ rw (e, index) there
      | inr e ↦ rw (e, index) (Memᴰ.tail there)
    ]

-- `logStrings` logs the elements that are not blank, each without the blanks around it and under its
-- index in the list, behind the length of the list.
pub log_strings_lem :
    (label : Bytes) (ss : List Bytes)
    → (rest : List LogLine) × (log_strings label ss ≡ count label (length ss) ∷ rest)
      × ((l : LogLine) → Memᴰ l rest ↔ Shows label 0 ss l)
unfolding log_strings log_entries
log_strings_lem label ss =
    (log_entries label 0 ss, counted ss, λ l. (log_entries-Shows label 0 ss l, λ h. shown l h))
  where
    counted :
        (xs : List Bytes) → log_strings label xs ≡ count label (length xs) ∷ log_entries label 0 xs
    counted [] = refl
    counted (x ∷ xs) = refl

    shown : (l : LogLine) → Shows label 0 ss l → Memᴰ l (log_entries label 0 ss)
    shown l (k, x, got, ne, e) = rw e (Shows-log_entries label 0 ss k x got ne)
