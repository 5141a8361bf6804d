-- ===== src/Rpc/Listing.antt =====
-- What "conns" lists: the peers of a relay without repetitions.
use mathlib.Core.List.{Permᴰ}
use mathlib.Core.Path.{subst}
use go_achat_node.Prelude.{
  ℕ, ◌≡◌, refl, sym, ap, ◌∙◌, true, false, ◌||◌, Bool-cases, inl, inr, none, List, [], ◌∷◌, map,
  Bytes, beq, beq→eq, All, Outcome, ok, err, panic, Exec, arith,
}
use go_achat_node.Group.Chain.{beq_comm}
use go_achat_node.Rpc.Conns.{
  insert, collected, dedup, add_info, infos, relay_infos, connected, answered, conns,
}
use go_achat_node.Mailbox.Cleaning.{contains}
use go_achat_node.Rpc.{Req, Peerinfo, Network, network, new_rsp, Node}

-- A list without repetitions.
abbrev pub Unique : List Bytes → Type 0
Unique [] = Unit
Unique (s ∷ set) = (contains set s ≡ false) × Unique set

collected-Unique : (arr set : List Bytes) → Unique set → Unique (collected set arr)
unfolding collected insert
collected-Unique [] set h = h
collected-Unique (str ∷ arr) set h = elim (Bool-cases (contains set str)) [
  | inl e ↦ rw e (collected-Unique arr set h)
  | inr e ↦ rw e (collected-Unique arr (str ∷ set) (e, h))
]

contains-same :
    (set : List Bytes) (str x : Bytes)
    → contains set str ≡ true
    → beq str x ≡ true
    → contains set x ≡ true
contains-same set str x h e = subst (λ y. contains set y ≡ true) (beq→eq str x e) h

contains-collected :
    (arr set : List Bytes) (x : Bytes)
    → contains (collected set arr) x ≡ (contains set x || contains arr x)
unfolding collected insert
contains-collected [] set x = ground arith
contains-collected (str ∷ arr) set x = elim (Bool-cases (contains set str)) [
  | inl e ↦ rw e (contains-collected arr set x ∙ ground (arith, contains-same set str x e))
  | inr e ↦ rw e (contains-collected arr (str ∷ set) x ∙ ground arith)
]

contains-Perm : {l k : List Bytes} (x : Bytes) → Permᴰ l k → contains l x ≡ contains k x
contains-Perm x Permᴰ.nil = refl
contains-Perm x (Permᴰ.cons e p) = ground (arith, ap (λ y. beq y x) e, contains-Perm x p)
contains-Perm x (Permᴰ.swap e f) = ground (arith, ap (λ y. beq y x) e, ap (λ y. beq y x) f)
contains-Perm x (Permᴰ.trans p q) = contains-Perm x p ∙ contains-Perm x q

Unique-Perm : {l k : List Bytes} → Permᴰ l k → Unique l → Unique k
Unique-Perm Permᴰ.nil h = h
Unique-Perm (Permᴰ.cons {b = b} {l₁ = l} e p) h =
    (sym (contains-Perm b p) ∙ subst (λ y. contains l y ≡ false) e h.0, Unique-Perm p h.1)
Unique-Perm (Permᴰ.swap {a = a} {b = b} {l = l} e f) h =
    rw (← e, ← f) (ground (arith, beq_comm a b), (ground arith, h.1.1))
Unique-Perm (Permᴰ.trans p q) h = Unique-Perm q (Unique-Perm p h)

-- The result has the elements of the argument, each once, in whatever order the set is ranged over.
pub dedup_lem :
    (range : List Bytes → List Bytes) (arr : List Bytes)
    → ((set : List Bytes) → Permᴰ set (range set))
    → Unique (dedup range arr) × ((x : Bytes) → contains (dedup range arr) x ≡ contains arr x)
unfolding dedup
dedup_lem range arr order = (
  Unique-Perm (order (collected [] arr)) (collected-Unique arr [] tt),
  λ x. sym (contains-Perm x (order (collected [] arr))) ∙ contains-collected arr [] x,
)

abbrev pub ids_of : List Peerinfo → List Bytes
ids_of pis = map (λ p. p.id) pis

module _ {N : Type 0} (find_peer : Bytes → Exec N (List Bytes)) where
  -- The p2p service is asked for each peer in turn: those that it finds are listed, with the addresses
  -- that it gives, and no others.
  pub data Asked : N → List Bytes → List Peerinfo → N → Type 0 where
    none_left : {n : N} → Asked n [] [] n
    found :
        {n n₁ n₂ : N} {id : Bytes} {ids : List Bytes} {addrs : List Bytes} {pis : List Peerinfo}
        → find_peer id n ≡ (ok addrs, n₁)
        → Asked n₁ ids pis n₂
        → Asked n (id ∷ ids) (record { id = id; addrs = addrs } ∷ pis) n₂
    missed :
        {n n₁ n₂ : N} {id : Bytes} {ids : List Bytes} {e : Bytes} {pis : List Peerinfo}
        → find_peer id n ≡ (err e, n₁)
        → Asked n₁ ids pis n₂
        → Asked n (id ∷ ids) pis n₂

  -- The same at each relay, for its peers without their repetitions.
  pub data Relayed : N → List (Bytes × List Bytes) → List (Bytes × List Peerinfo) → N → Type 0 where
    no_relay : {n : N} → Relayed n [] [] n
    relayed :
        {n n₁ n₂ : N} {rid : Bytes} {ids : List Bytes} {pis : List Peerinfo}
        {relay : List (Bytes × List Bytes)} {rpis : List (Bytes × List Peerinfo)} (set : List Bytes)
        → Unique set
        → ((x : Bytes) → contains set x ≡ contains ids x)
        → Asked n set pis n₁
        → Relayed n₁ relay rpis n₂
        → Relayed n ((rid, ids) ∷ relay) ((rid, pis) ∷ rpis) n₂

  Asked-absent :
      {n n' : N} {pis : List Peerinfo} {ids : List Bytes} (x : Bytes)
      → Asked n ids pis n'
      → contains ids x ≡ false
      → contains (ids_of pis) x ≡ false
  Asked-absent x none_left h = refl
  Asked-absent x (found e l) h = ground (arith, Asked-absent x l)
  Asked-absent x (missed e l) h = Asked-absent x l (ground arith)

  Asked-Unique :
      {n n' : N} {pis : List Peerinfo} {ids : List Bytes}
      → Asked n ids pis n'
      → Unique ids
      → Unique (ids_of pis)
  Asked-Unique none_left h = tt
  Asked-Unique (found {id = id} e l) h = (Asked-absent id l h.0, Asked-Unique l h.1)
  Asked-Unique (missed e l) h = Asked-Unique l h.1

  -- No relay has a peer twice.
  abbrev pub Deduplicated : List (Bytes × List Peerinfo) → Type 0
  Deduplicated rpis = All (λ (r : Bytes × List Peerinfo). Unique (ids_of r.1)) rpis

  Relayed-Deduplicated :
      {n n' : N} {relay : List (Bytes × List Bytes)} {rpis : List (Bytes × List Peerinfo)}
      → Relayed n relay rpis n'
      → Deduplicated rpis
  Relayed-Deduplicated no_relay = tt
  Relayed-Deduplicated (relayed set once same l rest) =
      (Asked-Unique l once, Relayed-Deduplicated rest)

  module _ (calm : (id : Bytes) (n : N) → (find_peer id n).0 ≡ panic → ⊥) where
    abbrev Answered : List Bytes → N → Type 0
    Answered ids n =
        (pis : List Peerinfo) × (n' : N) × (infos find_peer ids n ≡ (ok pis, n'))
        × Asked n ids pis n'

    infos-cons :
        (id : Bytes) (ids : List Bytes) (n : N) (r : Outcome (List Bytes) × N)
        → find_peer id n ≡ r
        → Answered ids r.1
        → Answered (id ∷ ids) n
    unfolding infos add_info
    infos-cons id ids n (ok addrs, n₁) e (pis, n₂, rest, l) =
        (record { id = id; addrs = addrs } ∷ pis, n₂, rw e (rw rest refl), found e l)
    infos-cons id ids n (err x, n₁) e (pis, n₂, rest, l) =
        (pis, n₂, rw e (rw rest refl), missed e l)
    infos-cons id ids n (panic, n₁) e h =
        absurd (calm id n (ap (λ (p : Outcome (List Bytes) × N). p.0) e))

    infos-Asked : (ids : List Bytes) (n : N) → Answered ids n
    unfolding infos
    infos-Asked [] n = ([], n, refl, none_left)
    infos-Asked (id ∷ ids) n =
        infos-cons id ids n (find_peer id n) refl (infos-Asked ids (find_peer id n).1)

    module _ (range : List Bytes → List Bytes)
        (order : (set : List Bytes) → Permᴰ set (range set)) where
      relay_infos-Relayed :
          (relay : List (Bytes × List Bytes)) (n : N)
          → (rpis : List (Bytes × List Peerinfo)) × (n' : N) × (relay_infos find_peer range relay n
              ≡ (ok rpis, n'))
            × Relayed n relay rpis n'
      unfolding relay_infos
      relay_infos-Relayed [] n = ([], n, refl, no_relay)
      relay_infos-Relayed ((rid, ids) ∷ relay) n =
          let (pis, n₁, asked, l) = infos-Asked (dedup range ids) n in
          let (rpis, n₂, rest, r) = relay_infos-Relayed relay n₁ in
          let (once, same) = dedup_lem range ids order in
          ((rid, pis) ∷ rpis, n₂, rw asked (rw rest refl), relayed (dedup range ids) once same l r)

      -- "conns" answers with a network: of the direct peers those that `Findpeer` finds, in their order
      -- and with the addresses that it gives, and then the same for each relay that the p2p service
      -- gives, at which each peer is asked for once, and listed at most once, however often the p2p
      -- service gives it and in whatever order a set is ranged over. The total is the p2p service's.
      -- `Findpeer` does not panic.
      pub conns-Relayed :
          {O : Type 0} (peers : N → (List Bytes × List (Bytes × List Bytes)) × ℕ) (req : Req O)
          (n : Node N)
          → let ((direct, relay), total) = peers n.world in
            (w : Network) × (n₁ : N) × (n₂ : N) × (conns find_peer peers range req n
              ≡ (ok (new_rsp req.id (network w) none), record n { world = n₂ }))
            × (w.total ≡ total)
            × Asked n.world direct w.direct n₁
            × Relayed n₁ relay w.relay n₂
            × Deduplicated w.relay
      unfolding conns connected answered
      conns-Relayed peers req n =
          let ((direct, relay), total) = peers n.world in
          let (dpis, n₁, asked, l) = infos-Asked direct n.world in
          let (rpis, n₂, rest, r) = relay_infos-Relayed relay n₁ in
          (
            record { total = total; direct = dpis; relay = rpis },
            n₁,
            n₂,
            rw asked (rw rest refl),
            refl,
            l,
            r,
            Relayed-Deduplicated r,
          )
