-- ===== src/Ldb/Opening.antt =====
-- `NewLDBDatabase` of ldb/database.go, and the stores that the services open. `open_file` is
-- `leveldb.OpenFile`. Sizes are those for which the products fit an `int`; the services pass 0.
use Prim.Native.Nat.{◌/◌}
use go_achat_node.Prelude.{
  ℕ, ◌+◌, ◌*◌, ◌≤◌, ℤ, pos, negsuc, Bytes, codes, ltb, if◌then◌else◌, Outcome, ok, err, panic,
  arith,
}
use go_achat_node.Ldb.{LevelDb, Database, ldb_database}

-- `opt.MiB`
abbrev pub mib : ℕ
mib = 1048576

-- `opt.Options`, with the bits of the Bloom filter.
pub record Options : Type 0 where
  pub open_files_cache_capacity : ℕ
  pub block_cache_capacity : ℕ
  pub write_buffer : ℕ
  pub filter_bits : ℕ

-- `if n < 16 { n = 16 }`
unfoldable pub at_least_16 : ℤ → ℕ
at_least_16 (pos n) = if ltb n 16 then 16 else n
at_least_16 (negsuc n) = 16

unfoldable pub options : ℤ → ℤ → Options
unfolding at_least_16
options cache handles = record {
  open_files_cache_capacity = at_least_16 handles;
  block_cache_capacity = at_least_16 cache / 2 * mib;
  write_buffer = at_least_16 cache / 4 * mib;
  filter_bits = 10;
}

module _ {S : Type 0} (open_file : Bytes → Options → Outcome (LevelDb S)) where
  opened : Outcome (LevelDb S) → Outcome (Database S)
  opened (ok level) = ok (ldb_database level)
  opened (err e) = err e
  opened panic = panic

  -- `NewLDBDatabase`
  unfoldable pub new_ldb_database : Bytes → ℤ → ℤ → Outcome (Database S)
  unfolding opened options
  new_ldb_database file cache handles = opened (open_file file (options cache handles))

  or_panic : Outcome (Database S) → Outcome (Database S)
  or_panic (ok db) = ok db
  or_panic (err e) = panic
  or_panic panic = panic

  -- The store of `newMailbox`, which panics where it cannot be opened. `join` is `path.Join`.
  unfoldable pub open_mailbox : (Bytes → Bytes → Bytes) → Bytes → Outcome (Database S)
  unfolding new_ldb_database or_panic
  open_mailbox join homedir =
      or_panic (new_ldb_database (join homedir (codes "mailbox")) (pos 0) (pos 0))

  -- The store of `NewUserService`
  unfoldable pub open_users : (Bytes → Bytes → Bytes) → Bytes → Outcome (Database S)
  unfolding new_ldb_database or_panic
  open_users join homedir =
      or_panic (new_ldb_database (join homedir (codes "user")) (pos 0) (pos 0))

  -- The store of `NewGroupService`, which nothing reads or writes.
  unfoldable pub open_groups : (Bytes → Bytes → Bytes) → Bytes → Outcome (Database S)
  unfolding new_ldb_database or_panic
  open_groups join homedir =
      or_panic (new_ldb_database (join homedir (codes "group")) (pos 0) (pos 0))

at_least_16-ge : (n : ℤ) → 16 ≤ at_least_16 n
unfolding at_least_16
at_least_16-ge (pos n) = ground arith
at_least_16-ge (negsuc n) = omega arith

-- Whatever is asked for, LevelDB gets at least 16 open files, 8 MiB of block cache and 4 MiB of write
-- buffer, and the cache and the buffer together are at most three quarters of the size asked for, or
-- of 16 MiB if that is more.
pub options_bounds :
    (cache handles : ℤ)
    → let o = options cache handles in
      (16 ≤ o.open_files_cache_capacity)
      × (8 * mib ≤ o.block_cache_capacity)
      × (4 * mib ≤ o.write_buffer)
      × (4 * (o.block_cache_capacity + o.write_buffer) ≤ 3 * (at_least_16 cache * mib))
unfolding options
options_bounds cache handles = (
  at_least_16-ge handles,
  omega (arith, at_least_16-ge cache),
  omega (arith, at_least_16-ge cache),
  omega (arith, at_least_16-ge cache),
)
