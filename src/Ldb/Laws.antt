-- ===== src/Ldb/Laws.antt =====
-- What the callers rely on of a working `Database`: the map behaviour that LevelDB documents, on
-- a disk that does not fail.
use go_achat_node.Prelude.{
  ◌≡◌, ◌≢◌, ◌↔◌, Memᴰ, Bool, true, false, Bytes, beq, if◌then◌else◌, Outcome, ok, err, panic, List,
  [], ◌∷◌,
}
use go_achat_node.Ldb.{LevelDb, Database, ldb_database}

-- Whether a read found its key.
abbrev pub is_found : Outcome Bytes → Bool
is_found (ok v) = true
is_found (err e) = false
is_found panic = false

pub record DatabaseLaws {S : Type 0} (db : Database S) : Type 0 where
  pub not_found : Bytes
  pub stored : S → Bytes → Bytes → S
  pub removed : S → Bytes → S
  pub put_eq : (k v : Bytes) (s : S) → db.put k v s ≡ (ok tt, stored s k v)
  pub delete_eq : (k : Bytes) (s : S) → db.delete k s ≡ (ok tt, removed s k)
  pub get-stored :
      (s : S) (k v j : Bytes) → db.get (stored s k v) j ≡ (if beq k j then ok v else db.get s j)
  pub get-removed :
      (s : S) (k j : Bytes)
      → db.get (removed s k) j ≡ (if beq k j then err not_found else db.get s j)
  pub get_calm : (s : S) (k : Bytes) → db.get s k ≢ panic
  pub has_eq : (s : S) (k : Bytes) → db.has s k ≡ ok (is_found (db.get s k))

-- What an iterator over the whole key space visits: each stored pair.
pub record IteratorLaws {S : Type 0} (db : Database S) : Type 0 where
  pub visits : (s : S) (k v : Bytes) → Memᴰ (k, v) (db.new_iterator s) ↔ (db.get s k ≡ ok v)

-- LevelDB's own laws: those of a database, and a batch is written as its puts in order.
pub record LevelDbLaws {S : Type 0} (level : LevelDb S) : Type 0 where
  pub database : DatabaseLaws (ldb_database level)
  pub iterator : IteratorLaws (ldb_database level)
  pub write_nil : (s : S) → level.write [] s ≡ (ok tt, s)
  pub write_cons :
      (k v : Bytes) (rest : List (Bytes × Bytes)) (s : S)
      → level.write ((k, v) ∷ rest) s ≡ level.write rest (database.stored s k v)
