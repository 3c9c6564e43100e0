-- ===== src/Ring/Race.antt =====
-- A producer that stands still between reading the write head and claiming the slot.
use native.Mathlib.Nat.{mod-eq-sub-mod}
use pg_redis.Base.{
  ℕ, ◌+◌, ◌-◌, ◌%◌, ◌^◌, ◌<◌, ◌≤◌, ◌≡◌, refl, ap, sym, ◌∙◌, false, [], ◌∷◌, ◌++◌, arith, min,
  length, get_or, get_or-set_self, set, leb, ◌==◌,
}
use pg_redis.Event.{Event}
use pg_redis.Ring.{
  Ring, Slot, slot_ready, slot_draining, slot_empty, slot_writing, blank, slot_at, put_slot,
  set_state, sub_u64,
}
use pg_redis.Ring.Slots.{window, length-window}
use pg_redis.Ring.Valid.{IsValid, contents}
use pg_redis.Ring.Collect.{marked, collect_eq, marked-IsValid}
use pg_redis.Ring.Release.{emptied, release_eq, emptied-IsValid}
use pg_redis.Ring.Producer.{
  reserved, reserve_at, advance, ring_ok, publish, publish_reserved, publish_stale,
}
use pg_redis.Ring.Publish.{
  fill-put_slot, commit-put_slot, filled, enqueued, publish_eq, enqueued-IsValid, contents-enqueued,
}
use pg_redis.Ring.Consumer.{collect, release_batch}

reserve_at_ok :
    (w rd : ℕ) (r : Ring)
    → leb r.capacity (sub_u64 w rd) ≡ false
    → (slot_at r w).state ≡ slot_empty
    → reserve_at w rd r ≡ reserved w (put_slot r w (record (slot_at r w) { state = slot_writing }))
unfolding reserve_at set_state
reserve_at_ok w rd r fits e = rw fits (rw e)

late_commit :
    (w now : ℕ) (ev : Event) (r : Ring) (s : Slot)
    → 0 < r.capacity
    → length r.slots ≡ r.capacity
    → s.state ≡ slot_writing
    → (r.write_head == w) ≡ false
    → publish_reserved now ev w (put_slot r w s) ≡ (ring_ok, put_slot r w (filled now ev))
unfolding publish_reserved
late_commit w now ev r s room sized held passed =
    rw (fill-put_slot r w s room sized now ev, publish_reserved)
      (rw
        (
          commit-put_slot r w (record s { write_started_at = now; event = ev }) room sized held,
          publish_reserved,
        )
        (unfold advance in rw passed))

-- A late claim of a slot whose position has gone by.
stale_eq :
    (w rd now : ℕ) (ev : Event) (r : Ring)
    → 0 < r.capacity
    → length r.slots ≡ r.capacity
    → leb r.capacity (sub_u64 w rd) ≡ false
    → (slot_at r w).state ≡ slot_empty
    → (r.write_head == w) ≡ false
    → publish_stale w rd now ev r ≡ (ring_ok, put_slot r w (filled now ev))
unfolding publish_stale
stale_eq w rd now ev r room sized fits e passed =
    rw (reserve_at_ok w rd r fits e, publish_stale)
      (late_commit w now ev r (record (slot_at r w) { state = slot_writing }) room sized refl
        passed)

-- Producer A reads the heads; producer B publishes at the same position, and a drain collects and
-- releases all; A goes on. A is told that its event is published, but the drain did not return the
-- event, the queue is empty, and the slot that A filled is ready, one round ahead of the position
-- that A reserved.
pub stale_publish_lost :
    {r : Ring} (max now : ℕ) (a b : Event)
    → IsValid 0 r
    → 1 < r.capacity
    → r.write_head < r.read_head + r.capacity
    → (slot_at r r.write_head).state ≡ slot_empty
    → r.write_head + 1 + r.capacity < 2 ^ 64
    → r.write_head + 1 - r.read_head ≤ max
    → let r1 = (publish 1 now b r).1 in
      let (events, base, r2) = collect max r1 in
      let r3 = release_batch base (length events) r2 in
      let (outcome, r4) = publish_stale r.write_head r.read_head now a r3 in
      (events ≡ contents r ++ (b ∷ []))
      × (outcome ≡ ring_ok)
      × (contents r4 ≡ [])
      × (r4.write_head ≡ r.write_head + 1)
      × (r4.read_head ≡ r.write_head + 1)
      × ((slot_at r4 (r.write_head + r.capacity)).state ≡ slot_ready)
unfolding window
stale_publish_lost {r} max now a b v big h e far all = rw (publish_eq 0 now b v h e (omega arith)) (
    rw (collect_eq max v1) (
      rw (length-window r1.capacity r1.slots r1.read_head m) (
        rw (release_eq m v2) (
          rw (stale_eq r.write_head r.read_head now a r3 v.room v3.sized fits free passed)
            (collected, refl, nothing, refl, heads, ahead)))))
  where
    r1 : Ring
    r1 = enqueued now b r

    v1 : IsValid 0 r1
    v1 = enqueued-IsValid now b v h far

    m : ℕ
    m = min max (r1.write_head - r1.read_head)

    r2 : Ring
    r2 = marked slot_draining r1 r1.read_head m

    v2 : IsValid m r2
    v2 = marked-IsValid m v1 (omega arith)

    r3 : Ring
    r3 = record (emptied r2 r2.read_head m) { read_head = r2.read_head + m }

    v3 : IsValid 0 r3
    v3 = emptied-IsValid m v2

    fits : leb r3.capacity (sub_u64 r.write_head r.read_head) ≡ false
    fits = ground arith

    passed : (r3.write_head == r.write_head) ≡ false
    passed = ground arith

    wrap : (r.write_head + r.capacity) % r.capacity ≡ r.write_head % r.capacity
    wrap =
        mod-eq-sub-mod {n = r.write_head + r.capacity} {m = r.capacity} (omega arith)
        ∙ (let z : r.write_head + r.capacity - r.capacity ≡ r.write_head = omega arith in
            ap (λ k. k % r.capacity) z)

    free : (slot_at r3 r.write_head).state ≡ slot_empty
    free =
        ap (λ k. (get_or r3.slots k blank).state) (sym wrap)
        ∙ v3.free (r.write_head + r.capacity) (omega arith) (omega arith)

    collected : window r.capacity r1.slots r.read_head m ≡ contents r ++ (b ∷ [])
    collected =
        let z : m ≡ r1.write_head - r1.read_head = omega arith in
        ap (window r.capacity r1.slots r.read_head) z ∙ contents-enqueued now b v h

    nothing : contents (put_slot r3 r.write_head (filled now a)) ≡ []
    nothing =
        let z : r.write_head + 1 - (r.read_head + m) ≡ 0 = omega arith in
        ap (window r.capacity (put_slot r3 r.write_head (filled now a)).slots (r.read_head + m)) z

    heads : r.read_head + m ≡ r.write_head + 1
    heads = omega arith

    ahead :
        (slot_at (put_slot r3 r.write_head (filled now a)) (r.write_head + r.capacity)).state
        ≡ slot_ready
    ahead =
        ap (λ k. (get_or (set r3.slots (r.write_head % r.capacity) (filled now a)) k blank).state)
          wrap
        ∙ ap (λ s. s.state)
            (get_or-set_self r3.slots (r.write_head % r.capacity) (filled now a) blank
              (omega (arith, v3.sized, v.room)))
