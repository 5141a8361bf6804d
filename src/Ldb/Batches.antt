-- ===== src/Ldb/Batches.antt =====
-- The batches of ldb/database.go, and puts through a table one by one.
use mathlib.Core.List.{append_assoc, append-nil}
use native.Mathlib.Nat.{add-zero, add_assoc}
use go_achat_node.Prelude.{ℕ, ◌+◌, ◌≡◌, List, [], ◌∷◌, ◌++◌, Bytes, length, arith, Exec, pure, ◌>>◌}
use go_achat_node.Ldb.{
  LevelDb, Database, Batch, ldb_batch, table_batch, ldb_database, new_table, batch_put, value_size,
  batch_write,
}
use go_achat_node.Ldb.Laws.{DatabaseLaws, LevelDbLaws}

-- A client that puts pairs into a batch, and one that puts them into a database.
unfoldable pub fill : Batch → List (Bytes × Bytes) → Batch
fill batch [] = batch
fill batch ((k, v) ∷ rest) = fill (batch_put batch k v) rest

unfoldable pub put_all : {S : Type 0} → Database S → List (Bytes × Bytes) → Exec S (Unit {0})
put_all db [] = pure tt
put_all db ((k, v) ∷ rest) = do db.put k v; put_all db rest

abbrev pub total_length : List (Bytes × Bytes) → ℕ
total_length [] = 0
total_length ((k, v) ∷ rest) = length v + total_length rest

-- The pairs as the table writes them.
abbrev prefixed : Bytes → List (Bytes × Bytes) → List (Bytes × Bytes)
prefixed p [] = []
prefixed p ((k, v) ∷ rest) = (p ++ k, v) ∷ prefixed p rest

fill-table :
    (p : Bytes) (queued rest : List (Bytes × Bytes)) (size : ℕ)
    → fill (table_batch (ldb_batch queued size) p) rest
      ≡ table_batch (ldb_batch (queued ++ prefixed p rest) (size + total_length rest)) p
unfolding fill batch_put
fill-table p queued [] size = rw append-nil (rw add-zero)
fill-table p queued ((k, v) ∷ rest) size =
    rw (fill-table p (queued ++ (p ++ k, v) ∷ []) rest (size + length v))
      (simp (append_assoc, add_assoc))

module _ {S : Type 0} (level : LevelDb S) (laws : LevelDbLaws level) (p : Bytes) where
  open laws use {database, write_nil, write_cons}

  abbrev table : Database S
  table = new_table (ldb_database level) p

  write-prefixed :
      (rest : List (Bytes × Bytes)) (s : S) → level.write (prefixed p rest) s ≡ put_all table rest s
  unfolding put_all new_table
  write-prefixed [] s = write_nil s
  write-prefixed ((k, v) ∷ rest) s =
      rw (write_cons, DatabaseLaws.put_eq database)
        (write-prefixed rest (database.stored s (p ++ k) v))

  -- Filling a batch that a table made and writing it is the same as putting the pairs through the
  -- table one by one, and the batch's size is the sum of the lengths of its values.
  pub batch_write-fill :
      (pairs : List (Bytes × Bytes)) (s : S)
      → let batch = fill table.new_batch pairs in
        (batch_write level batch s ≡ put_all table pairs s)
        × (value_size batch ≡ total_length pairs)
  unfolding batch_write value_size new_table ldb_database
  batch_write-fill pairs s = simp (fill-table p [] pairs 0) (write-prefixed pairs s, omega arith)
