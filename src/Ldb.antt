-- ===== src/Ldb.antt =====
-- ldb/interface.go and ldb/database.go: the key-value store. LevelDB itself is not in the
-- repository: it is the parameter `LevelDb`. `Database` is the interface of interface.go, and
-- `ldb_database` and `new_table` are its two implementations.
pub mod Laws
pub mod Table
pub mod Batches
pub mod Opening
use go_achat_node.Prelude.{
  ℕ, ◌+◌, Bool, false, ◌&&◌, List, [], ◌∷◌, ◌++◌, Bytes, beq, length, take, ltb, if◌then◌else◌,
  Outcome, Exec,
}

-- The calls of goleveldb that the wrapper makes, on a database whose state is `S`. An iterator
-- over the whole key space is the list of the pairs that it visits.
pub record LevelDb (S : Type 0) : Type 0 where
  pub get : S → Bytes → Outcome Bytes
  pub has : S → Bytes → Outcome Bool
  pub put : Bytes → Bytes → Exec S (Unit {0})
  pub delete : Bytes → Exec S (Unit {0})
  pub entries : S → List (Bytes × Bytes)
  pub write : List (Bytes × Bytes) → Exec S (Unit {0})

-- `ldbBatch` with what it has queued and the sum of its value lengths, and `tableBatch`.
pub data Batch : Type 0 where
  ldb_batch : List (Bytes × Bytes) → ℕ → Batch
  table_batch : Batch → Bytes → Batch

-- `Database`, with `Putter`; `Close` is left out.
pub record Database (S : Type 0) : Type 0 where
  pub get : S → Bytes → Outcome Bytes
  pub has : S → Bytes → Outcome Bool
  pub put : Bytes → Bytes → Exec S (Unit {0})
  pub delete : Bytes → Exec S (Unit {0})
  pub new_batch : Batch
  pub new_iterator : S → List (Bytes × Bytes)

-- `LDBDatabase`: each method passes its arguments on to LevelDB.
unfoldable pub ldb_database : {S : Type 0} → LevelDb S → Database S
ldb_database level = record {
  get = level.get;
  has = level.has;
  put = level.put;
  delete = level.delete;
  new_batch = ldb_batch [] 0;
  new_iterator = level.entries;
}

-- `NewTable`: every key gets the prefix, except that the iterator is the underlying one.
unfoldable pub new_table : {S : Type 0} → Database S → Bytes → Database S
new_table db prefix = record {
  get = λ s key. db.get s (prefix ++ key);
  has = λ s key. db.has s (prefix ++ key);
  put = λ key value. db.put (prefix ++ key) value;
  delete = λ key. db.delete (prefix ++ key);
  new_batch = table_batch db.new_batch prefix;
  new_iterator = db.new_iterator;
}

-- `ldbBatch.Put`
abbrev pub ldb_batch_put : List (Bytes × Bytes) → ℕ → Bytes → Bytes → Batch
ldb_batch_put queued size key value = ldb_batch (queued ++ (key, value) ∷ []) (size + length value)

-- `ldbBatch.Write`
abbrev pub ldb_batch_write : {S : Type 0} → LevelDb S → List (Bytes × Bytes) → Exec S (Unit {0})
ldb_batch_write level queued = level.write queued

-- `Put` of a batch; a table puts its prefix before the key.
unfoldable pub batch_put : Batch → Bytes → Bytes → Batch
batch_put (ldb_batch queued size) key value = ldb_batch_put queued size key value
batch_put (table_batch batch prefix) key value =
    table_batch (batch_put batch (prefix ++ key) value) prefix

-- `ValueSize`
unfoldable pub value_size : Batch → ℕ
value_size (ldb_batch queued size) = size
value_size (table_batch batch prefix) = value_size batch

-- `Write`
unfoldable pub batch_write : {S : Type 0} → LevelDb S → Batch → Exec S (Unit {0})
batch_write level (ldb_batch queued size) = ldb_batch_write level queued
batch_write level (table_batch batch prefix) = batch_write level batch

-- `Kfilter`. A nil key is an empty one here: both have no room for the prefix.
unfoldable pub kfilter : Bytes → Bytes → Bool
kfilter prefix k =
    if ltb (length prefix) (length k) then beq (take (length prefix) k) prefix else false
