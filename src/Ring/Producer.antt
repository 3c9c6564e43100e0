-- ===== src/Ring/Producer.antt =====
-- src/dirty_ring.c: `pg_redis_dirty_ring_publish` in its three phases, and its blocking caller.
use pg_redis.Base.{
  ℕ, zero, suc, ◌+◌, true, false, not, ◌&&◌, Option, none, some, leb, ◌==◌, if◌then◌else◌,
}
use pg_redis.Event.{Event}
use pg_redis.Shmem.{Dsa, shared_pfree, invalid_dsa_pointer}
use pg_redis.Ring.{
  Ring, slot_empty, slot_writing, slot_ready, u64, sub_u64, unusable, slot_at, put_slot, cas_state,
}

-- One round of the reservation loop: no free slot, a slot that another process holds, or the
-- reserved position.
pub data Reservation : Type 0 where
  no_slot : Reservation
  busy : Reservation
  reserved : ℕ → Ring → Reservation

-- With the heads that the round has read, `w` before `rd`.
unfoldable pub reserve_at : ℕ → ℕ → Ring → Reservation
unfolding cas_state
reserve_at w rd r =
    if leb r.capacity (sub_u64 w rd)
    then no_slot
    else (let (won, r') = cas_state r w slot_empty slot_writing in
        if won then reserved w r' else busy)

unfoldable pub reserve : Ring → Reservation
unfolding reserve_at
reserve r = reserve_at r.write_head r.read_head r

-- The payload write.
unfoldable pub fill : ℕ → Event → ℕ → Ring → Ring
fill now ev w r = put_slot r w (record (slot_at r w) { write_started_at = now; event = ev })

-- `pg_atomic_compare_exchange_u64` on the write head; its answer is ignored.
unfoldable pub advance : ℕ → Ring → Ring
advance w r = if r.write_head == w then record r { write_head = u64 (w + 1) } else r

-- The publication; `none` if the slot was reclaimed in the meantime.
unfoldable pub commit : ℕ → Ring → Option Ring
unfolding cas_state advance
commit w r =
    let (won, r') = cas_state r w slot_writing slot_ready in
    if won then some (advance w r') else none

-- `ring_full` and `ring_ok` are the results of the function, `not_initialized` is its error, and
-- `spinning` says that the reservation loop has not ended within the fuel.
pub data Outcome : Type 0 where
  ring_ok ring_full not_initialized spinning : Outcome

unfoldable pub publish_reserved : ℕ → Event → ℕ → Ring → Outcome × Ring
publish_reserved now ev w r = elim (commit w (fill now ev w r)) [
  | none ↦ (ring_full, fill now ev w r)
  | some r' ↦ (ring_ok, r')
]

unfoldable pub publish_loop : ℕ → ℕ → Event → Ring → Outcome × Ring
publish_loop zero now ev r = (spinning, r)
publish_loop (suc fuel) now ev r = elim (reserve r) [
  | no_slot ↦ (ring_full, r)
  | busy ↦ publish_loop fuel now ev r
  | reserved w r' ↦ publish_reserved now ev w r'
]

unfoldable pub publish : ℕ → ℕ → Event → Ring → Outcome × Ring
publish fuel now ev r = if unusable r then (not_initialized, r) else publish_loop fuel now ev r

-- A call whose last round read the heads `w` and `rd` before other processes changed the ring.
unfoldable pub publish_stale : ℕ → ℕ → ℕ → Event → Ring → Outcome × Ring
publish_stale w rd now ev r = elim (reserve_at w rd r) [
  | no_slot ↦ (ring_full, r)
  | busy ↦ (spinning, r)
  | reserved w' r' ↦ publish_reserved now ev w' r'
]

-- `free_event_spill`
unfoldable pub free_event_spill : Event → Dsa → Event × Dsa
free_event_spill ev d =
    if ev.dsa_overflow && not (ev.dsa_payload == invalid_dsa_pointer)
    then (
      record ev { dsa_payload = invalid_dsa_pointer; dsa_overflow = false },
      shared_pfree ev.dsa_payload d,
    )
    else (ev, d)

-- `pg_redis.async_full_action`
pub data FullAction : Type 0 where
  block sync_flush : FullAction

pub data Blocking : Type 0 where
  published insufficient_resources uninitialized out_of_fuel : Blocking

-- `drain` is the synchronous drain, `others` what other processes do to the ring during a sleep.
-- The rounds are the fuel, `spin` counts the sleeps since the last drain.
module _ (drain others : Ring → Ring) (fuel now : ℕ) (action : FullAction) where
  unfoldable pub publish_blocking : ℕ → ℕ → Event → Ring → Blocking × Ring
  unfolding publish free_event_spill
  publish_blocking zero spin ev r = (out_of_fuel, r)
  publish_blocking (suc rounds) spin ev r =
      let (outcome, r') = publish fuel now ev r in
      elim outcome [
        | ring_ok ↦ (published, r')
        | not_initialized ↦ (uninitialized, r')
        | spinning ↦ (out_of_fuel, r')
        | ring_full ↦ elim action [
          | sync_flush ↦ publish_blocking rounds 0 ev (drain r')
          | block ↦ elim (leb 100 (spin + 1)) [
            | true ↦ (insufficient_resources, record r' { dsa = (free_event_spill ev r'.dsa).1 })
            | false ↦ publish_blocking rounds (spin + 1) ev (others r')
          ]
        ]
      ]
