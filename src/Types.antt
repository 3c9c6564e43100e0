-- ===== src/Types.antt =====
-- types.h: the kinds of value, and the value of a keyspace entry.
use pg_redis.Base.{ℕ, Bytes, Option}
use pg_redis.Base.Int.{ℤ}

-- `PgRedisValueType`
pub data ValueType : Type 0 where
  type_string type_int type_hash type_list : ValueType

-- `PgRedisEntry.type` with the union `PgRedisEntry.value`. `string_len` is the length of the
-- string, and 0 beside a NULL `string_value`. `H` and `L` are what the hash and list pointers
-- stand for.
pub data Value (H L : Type 0) : Type 0 where
  string_value : Option Bytes → Value H L
  int_value : ℤ → Value H L
  hash_value : Option H → Value H L
  list_value : Option L → Value H L

module _ {H L : Type 0} where
  unfoldable pub type_of : Value H L → ValueType
  type_of (string_value _) = type_string
  type_of (int_value _) = type_int
  type_of (hash_value _) = type_hash
  type_of (list_value _) = type_list

abbrev pub max_key_size : ℕ
max_key_size = 1024

abbrev pub max_field_size : ℕ
max_field_size = 1024
