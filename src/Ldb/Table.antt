-- ===== src/Ldb/Table.antt =====
-- `NewTable` and `Kfilter` of ldb/database.go.
use go_achat_node.Prelude.{
  ◌≡◌, ◌≢◌, ◌↔◌, refl, sym, ap, true, [], ◌∷◌, ◌++◌, Bytes, beq-append_left, beq_ne, beq_iff,
  length, take, drop, length-append, length-drop, take-append, take-append-drop, arith,
}
use go_achat_node.Ldb.{Database, new_table, kfilter}
use go_achat_node.Ldb.Laws.{DatabaseLaws}

module _ {S : Type 0} (db : Database S) (laws : DatabaseLaws db) where
  open laws use {
    not_found, stored, removed, put_eq, delete_eq, get-stored, get-removed, get_calm, has_eq,
  }

  -- Reads and writes through a table obey the laws of a database, for every prefix.
  unfoldable pub new_table-DatabaseLaws : (prefix : Bytes) → DatabaseLaws (new_table db prefix)
  unfolding new_table
  new_table-DatabaseLaws prefix = record {
    not_found = not_found;
    stored = λ s k v. stored s (prefix ++ k) v;
    removed = λ s k. removed s (prefix ++ k);
    put_eq = λ k v s. put_eq (prefix ++ k) v s;
    delete_eq = λ k s. delete_eq (prefix ++ k) s;
    get-stored = λ s k v j. simp (get-stored, beq-append_left);
    get-removed = λ s k j. simp (get-removed, beq-append_left);
    get_calm = λ s k. get_calm s (prefix ++ k);
    has_eq = λ s k. has_eq s (prefix ++ k);
  }

  -- A write through one table is not seen through another, unless the prefixed keys coincide.
  pub new_table_isolated :
      (p q k v j : Bytes) (s : S)
      → p ++ k ≢ q ++ j
      → (new_table db q).get ((new_table db p).put k v s).1 j ≡ (new_table db q).get s j
  unfolding new_table
  new_table_isolated p q k v j s h = simp (put_eq, get-stored, beq_ne (p ++ k) (q ++ j) h)

kfilter-append : (p j : Bytes) → j ≢ [] → kfilter p (p ++ j) ≡ true
unfolding kfilter
kfilter-append p [] h = absurd (h refl)
kfilter-append p (b ∷ j) h = ground (
  arith,
  take-append p (b ∷ j),
  length-append p (b ∷ j),
  beq_iff (take (length p) (p ++ b ∷ j)) p,
)

append_of_kfilter : (p k : Bytes) → kfilter p k ≡ true → (j : Bytes) × (j ≢ []) × (k ≡ p ++ j)
unfolding kfilter
append_of_kfilter p k h =
    let cut : p ++ drop (length p) k ≡ k =
      ground (arith, take-append-drop (length p) k, beq_iff (take (length p) k) p) in
    (drop (length p) k, λ e. ground (arith, length-drop (length p) k, ap length e), sym cut)

-- `Kfilter` accepts a key exactly when it is the prefix with at least one byte behind it.
pub kfilter_iff : (p k : Bytes) → (kfilter p k ≡ true) ↔ ((j : Bytes) × (j ≢ []) × (k ≡ p ++ j))
kfilter_iff p k = (append_of_kfilter p k, λ h. rw (h.2) (kfilter-append p h.0 h.1))
