-- ===== src/Ring/Consumer.antt =====
-- src/dirty_ring.c: the consumer's side. Each function runs under `ring_consumer_lock`, so it is
-- one step of the ring.
use pg_redis.Base.{
  ℕ, zero, suc, ◌+◌, ◌-◌, Bool, ◌&&◌, ◌||◌, List, [], ◌∷◌, ltb, ◌==◌, if◌then◌else◌,
}
use pg_redis.Event.{Event}
use pg_redis.Ring.{
  Ring, slot_empty, slot_writing, slot_ready, slot_draining, state_eq, u64, unusable, slot_at,
  set_state, cas_state, free_slot_spill,
}

-- The loop of `collect` with `left` places in the buffer and `c` events copied; `r` and `w` are the
-- heads at its start.
unfoldable pub collect_loop : ℕ → ℕ → ℕ → ℕ → Ring → List Event × Ring
unfolding cas_state
collect_loop zero c r w ring = ([], ring)
collect_loop (suc left) c r w ring =
    let p = u64 (r + c) in
    let (got, ring') = cas_state ring p slot_ready slot_draining in
    let (rest, ring'') = collect_loop left (c + 1) r w ring' in
    if ltb p w && got then ((slot_at ring' p).event ∷ rest, ring'') else ([], ring)

-- The events, the base position, and the ring.
unfoldable pub collect : ℕ → Ring → List Event × ℕ × Ring
unfolding collect_loop
collect max ring =
    if unusable ring
    then ([], 0, ring)
    else (let (events, ring') = collect_loop max 0 ring.read_head ring.write_head ring in
        (events, ring.read_head, ring'))

unfoldable pub release_loop : ℕ → ℕ → ℕ → Ring → Ring
unfolding free_slot_spill set_state
release_loop zero i base ring = ring
release_loop (suc n) i base ring =
    let p = u64 (base + i) in
    release_loop n (i + 1) base (set_state (free_slot_spill ring p) p slot_empty)

unfoldable pub release_batch : ℕ → ℕ → Ring → Ring
unfolding release_loop
release_batch base n ring =
    if unusable ring || (n == 0)
    then ring
    else record (release_loop n 0 base ring) { read_head = u64 (base + n) }

unfoldable pub abort_loop : ℕ → ℕ → ℕ → Ring → Ring
unfolding set_state
abort_loop zero i base ring = ring
abort_loop (suc n) i base ring =
    abort_loop n (i + 1) base (set_state ring (u64 (base + i)) slot_ready)

unfoldable pub abort_batch : ℕ → ℕ → Ring → Ring
unfolding abort_loop
abort_batch base n ring = if unusable ring || (n == 0) then ring else abort_loop n 0 base ring

-- `TimestampDifferenceExceeds` is PostgreSQL's: it says whether the milliseconds have passed
-- between two times.
module _ (difference_exceeds : ℕ → ℕ → ℕ → Bool) where
  unfoldable pub reclaim_stuck : ℕ → ℕ → Ring → ℕ × Ring
  unfolding cas_state
  reclaim_stuck timeout_ms now ring =
      if unusable ring
      then (0, ring)
      else if state_eq (slot_at ring ring.write_head).state slot_writing
          && difference_exceeds (slot_at ring ring.write_head).write_started_at now timeout_ms
      then (let (got, ring') = cas_state ring ring.write_head slot_writing slot_empty in
          if got then (1, ring') else (0, ring))
      else (0, ring)

-- The loop of `drop_all_pending`: `left` positions are below the write head from `r` on.
unfoldable pub drop_loop : ℕ → ℕ → Ring → ℕ × Ring
unfolding free_slot_spill set_state
drop_loop zero r ring = (0, ring)
drop_loop (suc left) r ring =
    let st = (slot_at ring r).state in
    let (dropped, ring') =
      drop_loop left (r + 1) (set_state (free_slot_spill ring r) r slot_empty) in
    if state_eq st slot_ready || state_eq st slot_draining then (dropped + 1, ring') else (0, ring)

unfoldable pub drop_all_pending : Ring → ℕ × Ring
unfolding drop_loop
drop_all_pending ring =
    if unusable ring
    then (0, ring)
    else (let (dropped, ring') = drop_loop (ring.write_head - ring.read_head) ring.read_head ring in
        if ltb 0 dropped
        then (dropped, record ring' { read_head = u64 (ring.read_head + dropped) })
        else (0, ring'))
