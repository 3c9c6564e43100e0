-- ===== src/Modes/Limits.antt =====
-- What the limits of src/utils.c let through, against the fields of an event.
use pg_redis.Base.{ℕ, ◌<◌, ◌≤◌, ◌≡◌, refl, Bool, true, Option, arith, Bytes}
use pg_redis.Base.Int.{ℤ}
use pg_redis.Event.{u16}
use pg_redis.Modes.{
  accepted, check_key_len, check_field_len, persist_async_table, effective_persistence_mode,
  resolve_persistence_mode, storage_is_shared, persistence_writes_enabled,
}

-- Whatever the setting, a key or field that passes its check has 1 to 1024 bytes, and so its length
-- is not changed by the uint16 that an event keeps it in.
pub check_len-bounds :
    (setting : ℤ) (len : ℕ)
    → (check_key_len setting len ≡ accepted → (0 < len) × (len ≤ 1024) × (u16 len ≡ len))
      × (check_field_len len ≡ accepted → (0 < len) × (len ≤ 1024) × (u16 len ≡ len))
unfolding check_key_len check_field_len
check_len-bounds setting len = (λ h. ground arith, λ h. ground arith)

async_resolved :
    (p m : Option Bytes) (header : Bool)
    → effective_persistence_mode p m header ≡ persist_async_table
    → (resolve_persistence_mode p ≡ persist_async_table) × (storage_is_shared m header ≡ true)
unfolding effective_persistence_mode
async_resolved p m header h = ground arith

-- The effective mode is async only where the storage is shared, and durable writes are enabled then.
pub effective_persistence_mode-shared :
    (p m : Option Bytes) (header : Bool)
    → effective_persistence_mode p m header ≡ persist_async_table
    → (storage_is_shared m header ≡ true) × (persistence_writes_enabled p ≡ true)
unfolding persistence_writes_enabled
effective_persistence_mode-shared p m header h =
    let r = async_resolved p m header h in (r.1, rw (r.0, persistence_writes_enabled) refl)
