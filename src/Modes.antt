-- ===== src/Modes.antt =====
-- src/utils.c: the length limits and the modes that the settings stand for. A string setting is
-- `none` for NULL. Allocation and the number conversions of the C library are left out.
pub mod Limits
use pg_redis.Base.{
  ℕ, Bool, true, false, not, ◌&&◌, ◌||◌, Option, none, some, [], ◌∷◌, ltb, ◌==◌, if◌then◌else◌,
  Bytes, bytes_eq,
}
use pg_redis.Base.Int.{ℤ, pos, ltb_ℤ, pos_part}
use pg_redis.Types.{max_key_size, max_field_size}

-- `PgRedisPersistenceMode` and `PgRedisStorageMode`
pub data PersistenceMode : Type 0 where
  persist_none persist_sync_table persist_async_table persist_snapshot persist_aof : PersistenceMode

pub data StorageMode : Type 0 where
  storage_session storage_shared : StorageMode

-- What the length checks answer.
pub data Check : Type 0 where
  accepted empty_value limit_exceeded : Check

-- `pg_redis_check_key_len`, with the setting `max_key_size`
unfoldable pub check_key_len : ℤ → ℕ → Check
check_key_len setting len =
    let max =
      if not (ltb_ℤ (pos 0) setting) || ltb_ℤ (pos max_key_size) setting
      then max_key_size
      else pos_part setting in
    if len == 0 then empty_value else if ltb max len then limit_exceeded else accepted

-- `pg_redis_check_field_len`
unfoldable pub check_field_len : ℕ → Check
check_field_len len =
    if len == 0 then empty_value else if ltb max_field_size len then limit_exceeded else accepted

-- `pg_redis_check_value_len`, with the setting `max_value_size`
unfoldable pub check_value_len : ℤ → ℕ → Check
check_value_len setting len =
    if not (ltb_ℤ (pos 0) setting)
    then accepted
    else if ltb (pos_part setting) len
    then limit_exceeded
    else accepted

abbrev pub async_table : Bytes
async_table = b'a' ∷ b's' ∷ b'y' ∷ b'n' ∷ b'c' ∷ b'_' ∷ b't' ∷ b'a' ∷ b'b' ∷ b'l' ∷ b'e' ∷ []

-- `pg_redis_resolve_persistence_mode`
unfoldable pub resolve_persistence_mode : Option Bytes → PersistenceMode
resolve_persistence_mode none = persist_sync_table
resolve_persistence_mode (some m) =
    if bytes_eq m (b'n' ∷ b'o' ∷ b'n' ∷ b'e' ∷ [])
    then persist_none
    else if bytes_eq m (b's' ∷ b'y' ∷ b'n' ∷ b'c' ∷ b'_' ∷ b't' ∷ b'a' ∷ b'b' ∷ b'l' ∷ b'e' ∷ [])
    then persist_sync_table
    else if bytes_eq m async_table
    then persist_async_table
    else if bytes_eq m (b's' ∷ b'n' ∷ b'a' ∷ b'p' ∷ b's' ∷ b'h' ∷ b'o' ∷ b't' ∷ [])
    then persist_snapshot
    else if bytes_eq m (b'a' ∷ b'o' ∷ b'f' ∷ [])
    then persist_aof
    else persist_sync_table

-- `pg_redis_resolve_storage_mode`
unfoldable pub resolve_storage_mode : Option Bytes → StorageMode
resolve_storage_mode none = storage_session
resolve_storage_mode (some m) =
    if bytes_eq m (b's' ∷ b'h' ∷ b'a' ∷ b'r' ∷ b'e' ∷ b'd' ∷ [])
    then storage_shared
    else storage_session

-- `pg_redis_storage_is_shared`; `header` says whether the shared header is there.
unfoldable pub storage_is_shared : Option Bytes → Bool → Bool
unfolding resolve_storage_mode
storage_is_shared m header = elim (resolve_storage_mode m) [
  | storage_session ↦ false
  | storage_shared ↦ header
]

-- `pg_redis_effective_persistence_mode`
unfoldable pub effective_persistence_mode : Option Bytes → Option Bytes → Bool → PersistenceMode
unfolding resolve_persistence_mode storage_is_shared
effective_persistence_mode p m header = elim (resolve_persistence_mode p) [
  | persist_async_table ↦
      if storage_is_shared m header then persist_async_table else persist_sync_table
  | other ↦ other
]

-- `persistence_writes_enabled` of src/persistence.c
unfoldable pub persistence_writes_enabled : Option Bytes → Bool
unfolding resolve_persistence_mode
persistence_writes_enabled p = elim (resolve_persistence_mode p) [
  | persist_sync_table ↦ true
  | persist_async_table ↦ true
  | _ ↦ false
]
