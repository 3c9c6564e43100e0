-- ===== src/HashValue.antt =====
-- src/hash_value.c: the hash of a key in a backend. The table of fields is PostgreSQL's, as the
-- list of its entries; nothing here depends on their order. Memory contexts are left out.
pub mod Fields
pub mod Accounts
use pg_redis.Base.{
  ℕ, zero, suc, ◌+◌, ◌-◌, ◌%◌, ◌^◌, Bool, true, false, Option, none, some, List, [], ◌∷◌, ltb, leb,
  is_some, if◌then◌else◌, length, Bytes, bytes_eq,
}
use pg_redis.Types.{max_field_size}

-- `PgRedisHashField` without its name; `value_len` is the length of the value.
pub record Field : Type 0 where
  pub value : Bytes
  pub dirty : Bool

-- `PgRedisHash`
pub record Hash : Type 0 where
  pub fields : List (Bytes × Field)
  pub field_count : ℕ
  pub memory_usage : ℕ
  pub tombstones : List Bytes

-- `sizeof(PgRedisHashField)` where pointers have 8 bytes.
abbrev pub sizeof_field : ℕ
sizeof_field = 1056

-- Arithmetic on `Size`, which has 64 bits.
abbrev pub size_add : ℕ → ℕ → ℕ
size_add a b = (a + b) % 2 ^ 64

abbrev pub size_sub : ℕ → ℕ → ℕ
size_sub a b = (a + (2 ^ 64 - b % 2 ^ 64)) % 2 ^ 64

-- `hash_search` with HASH_FIND, HASH_ENTER and HASH_REMOVE.
unfoldable pub find : Bytes → List (Bytes × Field) → Option Field
find f [] = none
find f ((g, x) ∷ fs) = let rest = find f fs in if bytes_eq g f then some x else rest

unfoldable pub enter : Bytes → Field → List (Bytes × Field) → List (Bytes × Field)
enter f x [] = (f, x) ∷ []
enter f x ((g, y) ∷ fs) =
    let rest = enter f x fs in if bytes_eq g f then (g, x) ∷ fs else (g, y) ∷ rest

unfoldable pub remove : Bytes → List (Bytes × Field) → List (Bytes × Field)
remove f [] = []
remove f ((g, y) ∷ fs) = let rest = remove f fs in if bytes_eq g f then fs else (g, y) ∷ rest

-- `pg_redis_hash_create_in`
abbrev pub hash_create : Hash
hash_create = record { fields = []; field_count = 0; memory_usage = 0; tombstones = [] }

-- `pg_redis_hash_set`; `none` is the error for too long a field.
unfoldable pub hash_set : Hash → Bytes → Bytes → Option (Bool × Hash)
hash_set h field value =
    if ltb max_field_size (length field) then none else elim (find field h.fields) [
      | some f ↦ some (
        false,
        record h {
          fields = enter field (record { value = value; dirty = true }) h.fields;
          memory_usage = size_add (size_sub h.memory_usage (length f.value)) (length value);
        },
      )
      | none ↦ some (
        true,
        record h {
          fields = enter field (record { value = value; dirty = true }) h.fields;
          field_count = h.field_count + 1;
          memory_usage = size_add (size_add h.memory_usage sizeof_field) (length value);
        },
      )
    ]

-- `pg_redis_hash_get`
unfoldable pub hash_get : Hash → Bytes → Option Bytes
hash_get h field =
    if ltb max_field_size (length field)
    then none
    else elim (find field h.fields) [ none ↦ none | some f ↦ some f.value ]

-- `pg_redis_hash_exists`
unfoldable pub hash_exists : Hash → Bytes → Bool
unfolding hash_get
hash_exists h field = is_some (hash_get h field)

-- The guarded subtraction of `pg_redis_hash_del`.
abbrev pub less : ℕ → ℕ → ℕ
less usage bytes = if leb bytes usage then size_sub usage bytes else usage

-- `pg_redis_hash_del`
unfoldable pub hash_del : Hash → Bytes → Bool × Hash
hash_del h field =
    if ltb max_field_size (length field) then (false, h) else elim (find field h.fields) [
      | none ↦ (false, h)
      | some f ↦ (
        true,
        record {
          fields = remove field h.fields;
          memory_usage = less (less h.memory_usage (length f.value)) sizeof_field;
          field_count = if ltb 0 h.field_count then h.field_count - 1 else h.field_count;
          tombstones = field ∷ h.tombstones;
        },
      )
    ]

-- `pg_redis_hash_field_count` and `pg_redis_hash_memory`
abbrev pub hash_field_count : Option Hash → ℕ
hash_field_count none = 0
hash_field_count (some h) = h.field_count

abbrev pub hash_memory : Option Hash → ℕ
hash_memory none = 0
hash_memory (some h) = h.memory_usage
