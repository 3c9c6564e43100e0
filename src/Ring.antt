-- ===== src/Ring.antt =====
-- src/dirty_ring.c: the shared ring of queued changes. Producers publish events; one consumer at a
-- time collects a batch, and releases it after the durable write or returns it after a failure.
-- 64-bit positions wrap as written; the assertions, which a production build drops, are left out.
pub mod Producer
pub mod Consumer
pub mod Slots
pub mod Valid
pub mod Publish
pub mod Collect
pub mod Release
pub mod Flush
pub mod Reclaim
pub mod Race
mod Examples
use pg_redis.Base.{
  ℕ, zero, suc, ◌+◌, ◌-◌, ◌%◌, ◌^◌, Bool, true, false, not, ◌&&◌, ◌||◌, Option, none, some, List,
  [], ◌∷◌, ltb, leb, ◌==◌, if◌then◌else◌, length, get_or, set, replicate, Bytes,
}
use pg_redis.Base.Int.{pos}
use pg_redis.Types.{type_string}
use pg_redis.Event.{Event, key_upsert}
use pg_redis.Shmem.{Dsa, shared_pfree, invalid_dsa_pointer}

pub data SlotState : Type 0 where
  slot_empty slot_writing slot_ready slot_draining : SlotState

abbrev pub state_eq : SlotState → SlotState → Bool
state_eq slot_empty slot_empty = true
state_eq slot_writing slot_writing = true
state_eq slot_ready slot_ready = true
state_eq slot_draining slot_draining = true
state_eq _ _ = false

pub record Slot : Type 0 where
  pub state : SlotState
  pub write_started_at : ℕ
  pub event : Event

-- The zeroed memory of a slot that was never used (the enum 0 of the source is no event type).
abbrev pub blank_event : Event
blank_event = record {
  type = key_upsert;
  value_type = type_string;
  key_len = 0;
  field_len = 0;
  ord = pos 0;
  expire_at = pos 0;
  has_expire = false;
  version = 0;
  value_len = 0;
  dsa_overflow = false;
  dsa_payload = invalid_dsa_pointer;
  inline_bytes = [];
}

abbrev pub blank : Slot
blank = record { state = slot_empty; write_started_at = 0; event = blank_event }

-- `ring_slots`, `ring_capacity`, the two heads of the shared header, and the shared segment that
-- spilled payloads live in. `attached` is false while the header or the slot area is NULL.
pub record Ring : Type 0 where
  pub attached : Bool
  pub slots : List Slot
  pub capacity : ℕ
  pub write_head : ℕ
  pub read_head : ℕ
  pub dsa : Dsa

abbrev pub u64 : ℕ → ℕ
u64 n = n % 2 ^ 64

abbrev pub sub_u64 : ℕ → ℕ → ℕ
sub_u64 a b = (a + 2 ^ 64 - b) % 2 ^ 64

abbrev pub unusable : Ring → Bool
unusable r = not r.attached || (r.capacity == 0)

-- `pg_redis_dirty_ring_shmem_init` and `_attach`, with the heads that the startup hook zeroes
unfoldable pub init : ℕ → Dsa → Ring
init slot_count d = record {
  attached = true;
  slots = replicate slot_count blank;
  capacity = slot_count;
  write_head = 0;
  read_head = 0;
  dsa = d;
}

unfoldable pub pending : Ring → ℕ
pending r =
    if not r.attached
    then 0
    else if ltb r.read_head r.write_head
    then sub_u64 r.write_head r.read_head
    else 0

unfoldable pub full : Ring → Bool
unfolding pending
full r = if r.capacity == 0 then false else leb r.capacity (pending r)

-- `ring_slots[position % ring_capacity]`
abbrev pub slot_at : Ring → ℕ → Slot
slot_at r p = get_or r.slots (p % r.capacity) blank

abbrev pub put_slot : Ring → ℕ → Slot → Ring
put_slot r p s = record r { slots = set r.slots (p % r.capacity) s }

unfoldable pub set_state : Ring → ℕ → SlotState → Ring
set_state r p st = put_slot r p (record (slot_at r p) { state = st })

-- `pg_atomic_compare_exchange_u32` on the state of a slot
unfoldable pub cas_state : Ring → ℕ → SlotState → SlotState → Bool × Ring
unfolding set_state
cas_state r p expected new =
    if state_eq (slot_at r p).state expected then (true, set_state r p new) else (false, r)

-- The positions from `p` on, `n` of them, whose slots are being written.
count_writing : Ring → ℕ → ℕ → ℕ
count_writing r p zero = 0
count_writing r p (suc n) =
    (if state_eq (slot_at r p).state slot_writing then 1 else 0) + count_writing r (p + 1) n

pub record Inspection : Type 0 where
  pub at_write_head : ℕ
  pub at_read_head : ℕ
  pub waiting : ℕ
  pub stuck_writing : ℕ

-- The scan runs over read_head to write_head inclusive.
unfoldable pub inspect : Ring → Inspection
unfolding count_writing
inspect r =
    if unusable r
    then record { at_write_head = 0; at_read_head = 0; waiting = 0; stuck_writing = 0 }
    else record {
      at_write_head = r.write_head;
      at_read_head = r.read_head;
      waiting = if ltb r.read_head r.write_head then sub_u64 r.write_head r.read_head else 0;
      stuck_writing = count_writing r r.read_head (r.write_head + 1 - r.read_head);
    }

-- Frees the payload that a slot owns, and forgets it.
unfoldable pub free_slot_spill : Ring → ℕ → Ring
free_slot_spill r p =
    let s = slot_at r p in
    if s.event.dsa_overflow && not (s.event.dsa_payload == invalid_dsa_pointer)
    then record (put_slot r p (record s {
      event = record s.event { dsa_payload = invalid_dsa_pointer; dsa_overflow = false };
    })) { dsa = shared_pfree s.event.dsa_payload r.dsa }
    else r
