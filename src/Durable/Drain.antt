-- ===== src/Durable/Drain.antt =====
-- src/persistence.c: `pg_redis_persistence_async_drain`, which writes a batch of the ring to the
-- tables. An error leaves the tables as they were, since the caller's transaction or
-- subtransaction is rolled back.
pub mod Outcome
pub mod Stuck
mod Examples
use pg_redis.Base.{
  ℕ, zero, suc, ◌+◌, Bool, true, false, not, ◌||◌, Option, none, some, List, [], ◌∷◌, ◌>>=◌, ◌==◌,
  if◌then◌else◌, length, Bytes, min,
}
use pg_redis.Base.Int.{ℤ, pos, negsuc, of_u64, pos_part}
use pg_redis.Types.{ValueType, type_string, type_int, type_hash, type_list}
use pg_redis.Shmem.{Dsa}
use pg_redis.Event.{Event, EventType, decode_key, decode_field, decode_value}
use pg_redis.Ring.{Ring}
use pg_redis.Ring.Consumer.{collect, release_batch, abort_batch}
use pg_redis.Durable.{Tables}
use pg_redis.Durable.Batch.{
  Op, key_upsert, key_delete, field_upsert, field_delete, item_insert, item_delete, dispatch_all,
  no_vecs, run_plans,
}

abbrev pub is_scalar : ValueType → Bool
is_scalar type_string = true
is_scalar type_int = true
is_scalar type_hash = false
is_scalar type_list = false

-- The decoding of the switch, `none` for an event whose chunk is gone.
unfoldable pub decode_event : Dsa → Event → Option Op
decode_event d ev = do
  key ← decode_key ev d
  field ← decode_field ev d
  val ← decode_value ev d
  elim ev.type [
    | EventType.key_upsert ↦ some (
        key_upsert key (record {
          type = ev.value_type;
          value = if (length val == 0) || not (is_scalar ev.value_type) then none else some val;
          expire_at = if ev.has_expire then some ev.expire_at else none;
          version = of_u64 ev.version;
        }))
    | EventType.key_delete ↦ some (key_delete key)
    | EventType.hash_field_upsert ↦ some (field_upsert key field (some val))
    | EventType.hash_field_delete ↦ some (field_delete key field)
    | EventType.list_item_insert ↦ some (item_insert key ev.ord (some val))
    | EventType.list_item_delete ↦ some (item_delete key ev.ord)
  ]

unfoldable pub decode_all : Dsa → List Event → Option (List Op)
decode_all d [] = some []
decode_all d (ev ∷ events) = do op ← decode_event d ev; ops ← decode_all d events; some (op ∷ ops)

abbrev pub async_drain_batch_max : ℕ
async_drain_batch_max = 1024

unfoldable pub batch_max : ℤ → ℕ
batch_max (pos zero) = async_drain_batch_max
batch_max (pos (suc n)) = min (suc n) async_drain_batch_max
batch_max (negsuc n) = async_drain_batch_max

-- `wild_read` is the read of a payload that is gone.
pub data Drained : Type 0 where
  drained : ℕ → Drained
  spi_error : Drained
  wild_read : Drained

-- `connect` says whether SPI connects, `fault` which plans fail by themselves.
module _ (connect : Bool) (fault : ℕ → Bool) where
  -- Phases 2 and 3.
  unfoldable pub persist : List Event → ℕ → Ring → Tables → Drained × Ring × Tables
  persist events base ring t =
      if length events == 0
      then (drained 0, ring, t)
      else if not connect
      then (spi_error, abort_batch base (length events) ring, t)
      else elim (decode_all ring.dsa events) [
        | none ↦ (wild_read, ring, t)
        | some ops ↦ elim (run_plans fault (dispatch_all ops no_vecs) t) [
          | none ↦ (spi_error, abort_batch base (length events) ring, t)
          | some t' ↦ (drained (length events), release_batch base (length events) ring, t')
        ]
      ]

  -- `enabled` is `persistence_writes_enabled`.
  unfoldable pub async_drain : Bool → ℤ → Ring → Tables → Drained × Ring × Tables
  unfolding persist
  async_drain enabled max_events ring t =
      if not enabled
      then (drained 0, ring, t)
      else (let (events, base, ring') = collect (batch_max max_events) ring in
          persist events base ring' t)

  -- `pg_redis_persistence_sync_drain`, once the subtransaction it opens is released or rolled back.
  unfoldable pub sync_drain : Bool → Ring → Tables → Drained × Ring × Tables
  sync_drain enabled ring t = async_drain enabled (pos 0) ring t
