-- ===== src/Event.antt =====
-- src/dirty_ring.h and the encoders and decoders of src/dirty_ring.c: one queued change, and the
-- packing of its key, field and value in the slot or in a chunk of shared memory.
pub mod Roundtrip
mod Examples
use pg_redis.Base.{
  ℕ, zero, suc, ◌+◌, ◌%◌, ◌^◌, Bool, true, false, Option, none, some, [], ◌++◌, ltb, ◌==◌,
  if◌then◌else◌, length, take, drop, Bytes,
}
use pg_redis.Base.Int.{ℤ, pos}
use pg_redis.Types.{ValueType, type_string, type_hash, type_list}
use pg_redis.Shmem.{Dsa, shared_palloc, shared_addr, invalid_dsa_pointer, update}

-- `PgRedisDirtyEventType`
pub data EventType : Type 0 where
  key_upsert key_delete hash_field_upsert hash_field_delete list_item_insert list_item_delete :
      EventType

-- `PgRedisDirtyEvent` but for `state` and `write_started_at`, which belong to the slot. 0 is
-- `InvalidDsaPointer`, and `inline_bytes` are the bytes in use.
pub record Event : Type 0 where
  pub type : EventType
  pub value_type : ValueType
  pub key_len : ℕ
  pub field_len : ℕ
  pub ord : ℤ
  pub expire_at : ℤ
  pub has_expire : Bool
  pub version : ℕ
  pub value_len : ℕ
  pub dsa_overflow : Bool
  pub dsa_payload : ℕ
  pub inline_bytes : Bytes

abbrev pub inline_capacity : ℕ
inline_capacity = 256

abbrev pub u16 : ℕ → ℕ
u16 n = n % 2 ^ 16

-- The zeroed header of an event.
abbrev pub header : EventType → ValueType → ℕ → Event
header t v keylen = record {
  type = t;
  value_type = v;
  key_len = u16 keylen;
  field_len = 0;
  ord = pos 0;
  expire_at = pos 0;
  has_expire = false;
  version = 0;
  value_len = 0;
  dsa_overflow = false;
  dsa_payload = invalid_dsa_pointer;
  inline_bytes = [];
}

-- `memcpy` into a chunk.
abbrev pub write_chunk : ℕ → Bytes → Dsa → Dsa
write_chunk p bytes d = record d { chunk = update d.chunk p (some bytes) }

-- The encoders; `none` is the error of an exhausted segment. `alloc` is the allocator.
module _ (alloc : Dsa → ℕ → ℕ) where
  unfoldable pub event_inline_write : Event → Bytes → Bytes → Bytes → Dsa → Option (Event × Dsa)
  event_inline_write ev part1 part2 part3 d =
      let total = length part1 + length part2 + length part3 in
      if ltb inline_capacity total
      then (let (p, d') = shared_palloc alloc total d in
          if p == invalid_dsa_pointer
          then none
          else some (
            record ev { dsa_overflow = true; dsa_payload = p },
            write_chunk p (part1 ++ (part2 ++ part3)) d',
          ))
      else some (
        record ev {
          dsa_overflow = false;
          dsa_payload = invalid_dsa_pointer;
          inline_bytes = part1 ++ (part2 ++ part3);
        },
        d,
      )

  -- Of the entry it takes the type, the expiry and the version.
  unfoldable pub encode_key_upsert :
      ValueType → ℤ → Bool → ℕ → Bytes → Bytes → Dsa → Option (Event × Dsa)
  encode_key_upsert vtype expire has_expire version key tlv d =
      event_inline_write
        (record (header key_upsert vtype (length key)) {
          expire_at = expire;
          has_expire = has_expire;
          version = version;
          value_len = u16 (length tlv);
        })
        key [] tlv d

  unfoldable pub encode_key_delete : Bytes → Dsa → Option (Event × Dsa)
  encode_key_delete key d =
      event_inline_write (header key_delete type_string (length key)) key [] [] d

  unfoldable pub encode_hash_field_upsert : Bytes → Bytes → Bytes → Dsa → Option (Event × Dsa)
  encode_hash_field_upsert key field val d =
      event_inline_write
        (record (header hash_field_upsert type_hash (length key)) {
          field_len = u16 (length field);
          value_len = u16 (length val);
        })
        key field val d

  unfoldable pub encode_hash_field_delete : Bytes → Bytes → Dsa → Option (Event × Dsa)
  encode_hash_field_delete key field d =
      event_inline_write
        (record (header hash_field_delete type_hash (length key)) {
          field_len = u16 (length field);
        })
        key field [] d

  unfoldable pub encode_list_item_insert : Bytes → ℤ → Bytes → Dsa → Option (Event × Dsa)
  encode_list_item_insert key ord val d =
      event_inline_write
        (record (header list_item_insert type_list (length key)) {
          ord = ord;
          value_len = u16 (length val);
        })
        key [] val d

  unfoldable pub encode_list_item_delete : Bytes → ℤ → Dsa → Option (Event × Dsa)
  encode_list_item_delete key ord d =
      event_inline_write (record (header list_item_delete type_list (length key)) { ord = ord }) key
        [] [] d

-- `event_payload_base`: the memory that the accessors read, `none` for a chunk that is gone.
unfoldable pub event_payload_base : Event → Dsa → Option Bytes
event_payload_base ev d =
    if ev.dsa_overflow then shared_addr ev.dsa_payload d else some ev.inline_bytes

-- `n` bytes of the memory at an offset.
abbrev pub slice : ℕ → ℕ → Option Bytes → Option Bytes
slice offset n none = none
slice offset n (some bytes) = some (take n (drop offset bytes))

unfoldable pub decode_key : Event → Dsa → Option Bytes
unfolding event_payload_base
decode_key ev d = slice 0 ev.key_len (event_payload_base ev d)

unfoldable pub decode_field : Event → Dsa → Option Bytes
unfolding event_payload_base
decode_field ev d = slice ev.key_len ev.field_len (event_payload_base ev d)

unfoldable pub decode_value : Event → Dsa → Option Bytes
unfolding event_payload_base
decode_value ev d = slice (ev.key_len + ev.field_len) ev.value_len (event_payload_base ev d)
