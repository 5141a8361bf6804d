-- ===== src/Rpc/Routing.antt =====
-- `getRpcFn` of rpc/server.go: a method is the name of a service and that of a function.
use go_achat_node.Prelude.{
  ℕ, ◌≡◌, refl, sym, ap, ◌∙◌, Bool, Bool-cases, inl, inr, All, List, true, false, ◌||◌, none, [],
  ◌∷◌, ◌++◌, Bytes, ◌==◌, arith,
}
use go_achat_node.Rpc.{Services, split, cons_first, get_rpc_fn, rpc_fn_of, method_of}

abbrev pub has_byte : ℕ → Bytes → Bool
has_byte sep [] = false
has_byte sep (b ∷ bs) = b == sep || has_byte sep bs

split_free : (sep : ℕ) (bs : Bytes) → has_byte sep bs ≡ false → split sep bs ≡ bs ∷ []
unfolding split cons_first
split_free sep [] h = refl
split_free sep (b ∷ bs) h =
    let apart : (b == sep) ≡ false = ground arith in
    rw (apart, split_free sep bs (ground arith)) refl

split-joined :
    (sep : ℕ) (a b : Bytes)
    → has_byte sep a ≡ false
    → has_byte sep b ≡ false
    → split sep (a ++ sep ∷ b) ≡ a ∷ b ∷ []
unfolding split cons_first
split-joined sep [] b h k =
    let same : (sep == sep) ≡ true = ground arith in rw (same, split_free sep b k) refl
split-joined sep (x ∷ a) b h k =
    let apart : (x == sep) ≡ false = ground arith in
    rw (apart, split-joined sep a b (ground arith) k) refl

-- `strings.Join` at one byte
unfoldable pub intercalate : ℕ → List Bytes → Bytes
intercalate sep [] = []
intercalate sep (s ∷ []) = s
intercalate sep (s ∷ s' ∷ l) = s ++ sep ∷ intercalate sep (s' ∷ l)

intercalate-cons_first :
    (sep b : ℕ) (l : List Bytes) → intercalate sep (cons_first b l) ≡ b ∷ intercalate sep l
unfolding cons_first intercalate
intercalate-cons_first sep b [] = refl
intercalate-cons_first sep b (p ∷ []) = refl
intercalate-cons_first sep b (p ∷ q ∷ l) = refl

split_some : (sep : ℕ) (s : Bytes) → (p : Bytes) × (ps : List Bytes) × (split sep s ≡ p ∷ ps)
unfolding split cons_first
split_some sep [] = ([], [], refl)
split_some sep (b ∷ bs) = elim (Bool-cases (b == sep)) [
  | inl e ↦ ([], split sep bs, rw e refl)
  | inr e ↦ (let (p, ps, f) = split_some sep bs in (b ∷ p, ps, rw (e, f) refl))
]

-- Joining undoes splitting.
pub intercalate-split : (sep : ℕ) (s : Bytes) → intercalate sep (split sep s) ≡ s
unfolding split intercalate
intercalate-split sep [] = refl
intercalate-split sep (b ∷ bs) = elim (Bool-cases (b == sep)) [
  | inl e ↦
      (let (p, ps, f) = split_some sep bs in
        let blank : b ≡ sep = ground arith in
        let rest : intercalate sep (p ∷ ps) ≡ bs =
          sym (ap (intercalate sep) f) ∙ intercalate-split sep bs in
        rw e (rw f (rw (rest, blank) refl)))
  | inr e ↦ rw e (
      intercalate-cons_first sep b (split sep bs)
      ∙ ap (λ (l : Bytes). b ∷ l) (intercalate-split sep bs))
]

abbrev pub AllFree : ℕ → List Bytes → Type 0
AllFree sep = All (λ p. has_byte sep p ≡ false)

cons_first-AllFree :
    (sep b : ℕ) (l : List Bytes) → (b == sep) ≡ false → AllFree sep l → AllFree sep (cons_first b l)
unfolding cons_first
cons_first-AllFree sep b [] e h = (ground arith, tt)
cons_first-AllFree sep b (p ∷ ps) e h = (ground (arith, h.0), h.1)

-- The parts do not have the separator.
pub split-AllFree : (sep : ℕ) (s : Bytes) → AllFree sep (split sep s)
unfolding split
split-AllFree sep [] = (refl, tt)
split-AllFree sep (b ∷ bs) = elim (Bool-cases (b == sep)) [
  | inl e ↦ rw e (refl, split-AllFree sep bs)
  | inr e ↦ rw e (cons_first-AllFree sep b (split sep bs) e (split-AllFree sep bs))
]

module _ {O S : Type 0} where
  -- Where neither name has an underscore, `<service>_<function>` finds that function of that service.
  pub get_rpc_fn-joined :
      (services : Services O S) (ns fn : Bytes)
      → has_byte 95 ns ≡ false
      → has_byte 95 fn ≡ false
      → get_rpc_fn services (ns ++ 95 ∷ fn) ≡ method_of services ns fn
  unfolding get_rpc_fn rpc_fn_of
  get_rpc_fn-joined services ns fn h k = rw (split-joined 95 ns fn h k) refl

  -- A method without an underscore belongs to no service.
  pub get_rpc_fn-alone :
      (services : Services O S) (method : Bytes)
      → has_byte 95 method ≡ false
      → get_rpc_fn services method ≡ none
  unfolding get_rpc_fn rpc_fn_of
  get_rpc_fn-alone services method h = rw (split_free 95 method h) refl
