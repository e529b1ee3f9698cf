-- ===== src/Storage/Database.antt =====
-- RocksDB as src/storage/metadata/rocksdb.rs uses it: point reads, atomic batches and ordered
-- iteration over column families. The database itself is a parameter, with its documented
-- behaviour as laws about its contents.
use flywheel.Prelude.{
  ◌≡◌, Bool, true, false, not, ◌&&◌, Option, none, some, List, [], ◌∷◌, All, if◌then◌else◌,
}
use flywheel.Bytes.{Bytes, bytes_eq, bytes_lt}
use flywheel.Storage.Errors.{Result, ok}

pub data Family : Type 0 where
  meta artifacts references eviction channels : Family

unfoldable pub family_eq : Family → Family → Bool
family_eq meta meta = true
family_eq artifacts artifacts = true
family_eq references references = true
family_eq eviction eviction = true
family_eq channels channels = true
family_eq _ _ = false

-- What the families hold.
abbrev pub Contents : Type 0
Contents = Family → Bytes → Option Bytes

-- The entries of a `WriteBatch`.
pub data Op : Type 0 where
  put : Family → Bytes → Bytes → Op
  delete : Family → Bytes → Op
  delete_range : Family → Bytes → Bytes → Op

abbrev pub apply_op : Op → Contents → Contents
apply_op (put f k v) c g j = if family_eq f g && bytes_eq k j then some v else c g j
apply_op (delete f k) c g j = if family_eq f g && bytes_eq k j then none else c g j
apply_op (delete_range f from to) c g j =
    if family_eq f g && (not (bytes_lt j from) && bytes_lt j to) then none else c g j

-- A batch applies its entries in order.
abbrev pub apply : List Op → Contents → Contents
apply [] c = c
apply (op ∷ ops) c = apply ops (apply_op op c)

-- The keys rise from the first one on.
abbrev pub Rising : List (Bytes × Bytes) → Type 0
Rising [] = Unit
Rising ((k, v) ∷ rest) = All (λ e. bytes_lt k e.0 ≡ true) rest × Rising rest

-- `Db` is the state of an open database, `E` the type of its error messages. An iterator item
-- may fail (`none`).
pub record Database : Type 1 where
  pub Db : Type 0
  pub contents : Db → Contents
  pub get : Db → Family → Bytes → Result Bytes (Option Bytes)
  pub write : Db → Bool → List Op → Result Bytes Db
  pub iterate : Db → Family → Bytes → List (Option (Bytes × Bytes))
  -- A read that succeeds returns what the key holds.
  pub get_contents :
      (db : Db) (f : Family) (k : Bytes) (v : Option Bytes)
      → get db f k ≡ ok v
      → v ≡ contents db f k
  -- A batch that succeeds is applied whole, flushed or not.
  pub write_contents :
      (db db' : Db) (sync : Bool) (batch : List Op)
      → write db sync batch ≡ ok db'
      → contents db' ≡ apply batch (contents db)
