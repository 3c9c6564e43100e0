-- ===== src/Durable.antt =====
-- src/persistence.c and pg_redis--1.2.sql: the durable tables, and the six statements that the
-- flush and the drain run on them. A statement that PostgreSQL refuses is `none`.
pub mod Batch
pub mod Drain
use pg_redis.Base.{
  ℕ, Bool, true, false, not, ◌&&◌, ◌||◌, Option, none, some, List, [], ◌∷◌, ◌++◌, is_some,
  if◌then◌else◌, Bytes, bytes_eq,
}
use pg_redis.Base.Int.{ℤ, eq_ℤ}
use pg_redis.Types.{ValueType}

-- A row of `pgredis.store` without `updated_at`; NULL is `none`.
pub record StoreRow : Type 0 where
  pub type : ValueType
  pub value : Option Bytes
  pub expire_at : Option ℤ
  pub version : ℤ

-- `pgredis.store`, `pgredis.hash_fields` and `pgredis.list_items`, by their primary keys.
pub record Tables : Type 0 where
  pub store : Bytes → Option StoreRow
  pub hash_fields : Bytes → Bytes → Option (Option Bytes)
  pub list_items : Bytes → ℤ → Option (Option Bytes)

abbrev pub StoreUpsert : Type 0
StoreUpsert = Bytes × StoreRow

abbrev pub FieldUpsert : Type 0
FieldUpsert = Bytes × Bytes × Option Bytes

abbrev pub FieldDelete : Type 0
FieldDelete = Bytes × Bytes

abbrev pub ItemInsert : Type 0
ItemInsert = Bytes × ℤ × Option Bytes

abbrev pub ItemDelete : Type 0
ItemDelete = Bytes × ℤ

abbrev pub or_else {ℓ} : {A : Type ℓ} → Option A → Option A → Option A
or_else none b = b
or_else (some a) b = some a

-- `DISTINCT ON (k) ... ORDER BY k, i DESC`: the last row of a key.
unfoldable pub last_row : Bytes → List StoreUpsert → Option StoreRow
last_row k [] = none
last_row k ((k', row) ∷ rows) = or_else (last_row k rows) (if bytes_eq k' k then some row else none)

-- `SQL_STORE_UPSERT`
unfoldable pub store_upsert : List StoreUpsert → Tables → Option Tables
store_upsert rows t = some (record t { store = λ k. or_else (last_row k rows) (t.store k) })

unfoldable pub has_field : Bytes → Bytes → List FieldDelete → Bool
has_field k f [] = false
has_field k f ((k', f') ∷ rows) = (bytes_eq k' k && bytes_eq f' f) || has_field k f rows

-- `SQL_HASH_FIELD_DELETE`
unfoldable pub hash_field_delete : List FieldDelete → Tables → Option Tables
hash_field_delete rows t =
    some (record t { hash_fields = λ k f. if has_field k f rows then none else t.hash_fields k f })

unfoldable pub last_field : Bytes → Bytes → List FieldUpsert → Option (Option Bytes)
last_field k f [] = none
last_field k f ((k', f', v) ∷ rows) =
    or_else (last_field k f rows) (if bytes_eq k' k && bytes_eq f' f then some v else none)

-- The foreign key on `pgredis.store(key)`.
unfoldable pub fields_have_parent : List FieldUpsert → Tables → Bool
fields_have_parent [] t = true
fields_have_parent ((k, _, _) ∷ rows) t = is_some (t.store k) && fields_have_parent rows t

-- `SQL_HASH_FIELD_UPSERT`
unfoldable pub hash_field_upsert : List FieldUpsert → Tables → Option Tables
hash_field_upsert rows t =
    if fields_have_parent rows t
    then some (record t { hash_fields = λ k f. or_else (last_field k f rows) (t.hash_fields k f) })
    else none

unfoldable pub has_item : Bytes → ℤ → List ItemDelete → Bool
has_item k o [] = false
has_item k o ((k', o') ∷ rows) = (bytes_eq k' k && eq_ℤ o' o) || has_item k o rows

-- `SQL_LIST_ITEM_DELETE`
unfoldable pub list_item_delete : List ItemDelete → Tables → Option Tables
list_item_delete rows t =
    some (record t { list_items = λ k o. if has_item k o rows then none else t.list_items k o })

unfoldable pub new_item : Bytes → ℤ → List ItemInsert → Option (Option Bytes)
new_item k o [] = none
new_item k o ((k', o', v) ∷ rows) = if bytes_eq k' k && eq_ℤ o' o then some v else new_item k o rows

-- The foreign key, and the primary key: no row of the table or of the statement has the same one.
unfoldable pub items_insertable : List ItemInsert → Tables → Bool
unfolding new_item
items_insertable [] t = true
items_insertable ((k, o, _) ∷ rows) t =
    is_some (t.store k)
    && not (is_some (t.list_items k o))
    && not (is_some (new_item k o rows))
    && items_insertable rows t

-- `SQL_LIST_ITEM_INSERT`
unfoldable pub list_item_insert : List ItemInsert → Tables → Option Tables
list_item_insert rows t =
    if items_insertable rows t
    then some (record t { list_items = λ k o. or_else (new_item k o rows) (t.list_items k o) })
    else none

unfoldable pub has_key : Bytes → List Bytes → Bool
has_key k [] = false
has_key k (k' ∷ keys) = bytes_eq k' k || has_key k keys

-- `SQL_STORE_DELETE`, with `ON DELETE CASCADE` of the two child tables
unfoldable pub store_delete : List Bytes → Tables → Option Tables
store_delete keys t = some (record {
  store = λ k. if has_key k keys then none else t.store k;
  hash_fields = λ k f. if has_key k keys then none else t.hash_fields k f;
  list_items = λ k o. if has_key k keys then none else t.list_items k o;
})

-- `TRUNCATE TABLE pgredis.store CASCADE`
unfoldable pub truncate : Tables
truncate = record { store = λ k. none; hash_fields = λ k f. none; list_items = λ k o. none }
