-- ===== src/Ring/Reclaim.antt =====
-- `reclaim_stuck`: freeing the slot of a producer that failed between reserving and publishing.
use native.Mathlib.Decide.{dec_lt}
use native.Mathlib.Nat.{mod-eq-sub-mod}
use pg_redis.Base.{
  inl, inr, ◌⊎◌, ℕ, zero, suc, ◌+◌, ◌-◌, ◌%◌, ◌^◌, ◌<◌, ◌≡◌, ◌≢◌, refl, ap, sym, ◌∙◌, Bool, true,
  false, ◌&&◌, arith, get_or, length-set, get_or-set_self, get_or-set_ne, Bool-cases,
}
use pg_redis.Event.{Event}
use pg_redis.Ring.{Ring, SlotState, slot_empty, slot_writing, state_eq, blank, slot_at}
use pg_redis.Ring.Slots.{once, window_ext, mod-ne}
use pg_redis.Ring.Valid.{IsValid, contents, usable}
use pg_redis.Ring.Collect.{mark, set_state-once}
use pg_redis.Ring.Producer.{ring_ok, publish}
use pg_redis.Ring.Publish.{publish_ok}
use pg_redis.Ring.Consumer.{reclaim_stuck}

abbrev freed_slot : Ring → Ring
freed_slot r = record r { slots = once (mark slot_empty) r.capacity r.slots r.write_head }

freed_slot-IsValid :
    {d : ℕ} {r : Ring}
    → IsValid d r
    → r.write_head < r.read_head + r.capacity
    → IsValid d (freed_slot r)
freed_slot-IsValid {d} {r} v h = record {
  live = v.live;
  room = v.room;
  sized = length-set r.slots _ _ ∙ v.sized;
  taken = v.taken;
  bounded = v.bounded;
  far = v.far;
  drained = λ p a b. ap (λ s. s.state) (before p (omega arith) (omega arith)) ∙ v.drained p a b;
  ready = λ p a b. ap (λ s. s.state) (before p b (omega arith)) ∙ v.ready p a b;
  free = λ p a b.
      ap (λ s. s.state)
        (get_or-set_ne r.slots (r.write_head % r.capacity) (p % r.capacity) _ blank
          (mod-ne r.capacity r.write_head p a (omega arith)))
      ∙ v.free p a b;
  boundary = λ a. inl (
      ap (λ s. s.state)
        (get_or-set_self r.slots (r.write_head % r.capacity) _ blank
          (omega (arith, v.sized, v.room))));
}
  where
    before :
        (p : ℕ)
        → p < r.write_head
        → r.write_head < p + r.capacity
        → slot_at (freed_slot r) p ≡ slot_at r p
    before p a b =
        get_or-set_ne r.slots (r.write_head % r.capacity) (p % r.capacity) _ blank
          (λ e. mod-ne r.capacity p r.write_head a b (sym e))

contents-freed_slot :
    {d : ℕ} {r : Ring}
    → IsValid d r
    → r.write_head < r.read_head + r.capacity
    → contents (freed_slot r) ≡ contents r
contents-freed_slot {d} {r} v h =
    window_ext r.capacity r.slots _ r.read_head (r.write_head - r.read_head) (λ q a b.
      ap (λ s. s.event)
        (get_or-set_ne r.slots (r.write_head % r.capacity) (q % r.capacity) _ blank
          (λ e. mod-ne r.capacity q r.write_head (omega arith) (omega arith) (sym e))))

full_wrap :
    {d : ℕ} {r : Ring}
    → IsValid d r
    → r.write_head ≡ r.read_head + r.capacity
    → slot_at r r.write_head ≡ slot_at r r.read_head
full_wrap {d} {r} v h =
    let back : r.write_head - r.capacity ≡ r.read_head = omega arith in
    ap (λ k. get_or r.slots k blank)
      (mod-eq-sub-mod {n = r.write_head} {m = r.capacity} (omega arith)
        ∙ ap (λ k. k % r.capacity) back)

-- In a full ring the slot at the write head is one that was published.
full_slot :
    {d : ℕ} {r : Ring}
    → IsValid d r
    → r.write_head ≡ r.read_head + r.capacity
    → (slot_at r r.write_head).state ≢ slot_writing
full_slot {d = zero} {r = r} v h e =
    cc (full_wrap v h, v.ready r.read_head (omega arith) (omega (arith, v.room)))
full_slot {d = suc d} {r = r} v h e =
    cc (full_wrap v h, v.drained r.read_head (omega arith) (omega arith))

not_both :
    (st : SlotState) (b : Bool)
    → (state_eq st slot_writing && b) ≡ false
    → (st ≢ slot_writing) ⊎ (b ≡ false)
not_both st false h = inr refl
not_both st true h = inl (λ e. ground (arith, h, e))

module _ (difference_exceeds : ℕ → ℕ → ℕ → Bool) (timeout_ms now : ℕ) where
  -- Reclaiming keeps a valid ring valid, with the same batch out and the same events. Either the slot
  -- at the write head has been in writing for longer than the timeout; then one slot is freed, and the
  -- next event is published. Or it is not in writing, or not for that long; then nothing is changed.
  pub reclaim_stuck_lem :
      {d : ℕ} {r : Ring} (fuel later : ℕ) (ev : Event)
      → IsValid d r
      → r.write_head + 1 + r.capacity < 2 ^ 64
      → let (n, r') = reclaim_stuck difference_exceeds timeout_ms now r in
        IsValid d r'
        × (contents r' ≡ contents r)
        × (((slot_at r r.write_head).state ≡ slot_writing
              × (difference_exceeds (slot_at r r.write_head).write_started_at now timeout_ms ≡ true)
              × (n ≡ 1)
              × ((publish (suc fuel) later ev r').0 ≡ ring_ok))
            ⊎ ((((slot_at r r.write_head).state ≢ slot_writing)
                  ⊎ (difference_exceeds (slot_at r r.write_head).write_started_at now timeout_ms
                      ≡ false))
                × (n ≡ 0)
                × (r' ≡ r)))
  unfolding reclaim_stuck
  reclaim_stuck_lem {d} {r} fuel later ev v far =
      elim (Bool-cases (state_eq st slot_writing && difference_exceeds since now timeout_ms)) [
        | inl go ↦
            let held : st ≡ slot_writing = ground arith in
            let over : difference_exceeds since now timeout_ms ≡ true = ground arith in
            let room : r.write_head < r.read_head + r.capacity = stuck_room held in
            let v' : IsValid d (freed_slot r) = freed_slot-IsValid v room in
            rw (usable v) (
              rw go (
                rw held (
                  rw (set_state-once r r.write_head slot_empty) (
                    v',
                    contents-freed_slot v room,
                    inl (
                      refl,
                      over,
                      refl,
                      (publish_ok fuel later ev v' room
                          (ap (λ s. s.state)
                            (get_or-set_self r.slots (r.write_head % r.capacity) _ blank
                              (omega (arith, v.sized, v.room))))
                          far).0,
                    ),
                  ))))
        | inr stay ↦ rw (usable v) (
            rw stay (
              v,
              refl,
              inr (not_both st (difference_exceeds since now timeout_ms) stay, refl, refl),
            ))
      ]
    where
      st : SlotState
      st = (slot_at r r.write_head).state

      since : ℕ
      since = (slot_at r r.write_head).write_started_at

      stuck_room : st ≡ slot_writing → r.write_head < r.read_head + r.capacity
      stuck_room held = elim (dec_lt r.write_head (r.read_head + r.capacity)) [
        | yes h ↦ h
        | no h ↦ absurd (full_slot v (omega arith) held)
      ]
