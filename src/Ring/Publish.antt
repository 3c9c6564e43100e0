-- ===== src/Ring/Publish.antt =====
-- Publishing an event on a valid ring.
use native.Mathlib.Decide.{dec_lt}
use pg_redis.Base.{
  inl, inr, set-set, ℕ, zero, suc, ◌+◌, ◌-◌, ◌%◌, ◌^◌, ◌<◌, ◌≡◌, refl, ap, ap₂, sym, subst, ◌∙◌,
  true, false, List, [], ◌∷◌, ◌++◌, arith, some, length, get_or, set, length-set, get_or-set_self,
  get_or-set_ne, leb, ◌==◌,
}
use pg_redis.Event.{Event}
use pg_redis.Ring.{
  Ring, Slot, SlotState, slot_ready, slot_empty, slot_writing, blank, slot_at, put_slot, set_state,
  u64, sub_u64,
}
use pg_redis.Ring.Slots.{window, window_ext, window_last, mod-ne}
use pg_redis.Ring.Valid.{IsValid, contents, length-contents, usable}
use pg_redis.Ring.Producer.{
  no_slot, busy, reserved, reserve, fill, advance, commit, Outcome, ring_ok, ring_full, spinning,
  not_initialized, publish_reserved, publish_loop, publish,
}

module _ (r : Ring) (p : ℕ) (s : Slot) (room : 0 < r.capacity)
    (sized : length r.slots ≡ r.capacity) where
  slot_at-put_slot : slot_at (put_slot r p s) p ≡ s
  slot_at-put_slot = get_or-set_self r.slots (p % r.capacity) s blank (omega arith)

  put_slot-put_slot : (t : Slot) → put_slot (put_slot r p s) p t ≡ put_slot r p t
  put_slot-put_slot t = ap (λ xs. record r { slots = xs }) (set-set r.slots (p % r.capacity) s t)

  pub fill-put_slot :
      (now : ℕ) (ev : Event)
      → fill now ev p (put_slot r p s)
        ≡ put_slot r p (record s { write_started_at = now; event = ev })
  unfolding fill
  fill-put_slot now ev =
      ap
        (λ (t : Slot).
          put_slot (put_slot r p s) p (record t { write_started_at = now; event = ev }))
        slot_at-put_slot
      ∙ put_slot-put_slot (record s { write_started_at = now; event = ev })

  set_state-put_slot :
      (st : SlotState) → set_state (put_slot r p s) p st ≡ put_slot r p (record s { state = st })
  unfolding set_state
  set_state-put_slot st =
      ap (λ (t : Slot). put_slot (put_slot r p s) p (record t { state = st })) slot_at-put_slot
      ∙ put_slot-put_slot (record s { state = st })

  pub commit-put_slot :
      s.state ≡ slot_writing
      → commit p (put_slot r p s)
        ≡ some (advance p (put_slot r p (record s { state = slot_ready })))
  unfolding commit
  commit-put_slot e =
      let here : (slot_at (put_slot r p s) p).state ≡ slot_writing =
        ap (λ (t : Slot). t.state) slot_at-put_slot ∙ e in
      rw here (ap (λ (x : Ring). some (advance p x)) (set_state-put_slot slot_ready))

abbrev pub filled : ℕ → Event → Slot
filled now ev = record { state = slot_ready; write_started_at = now; event = ev }

abbrev pub enqueued : ℕ → Event → Ring → Ring
enqueued now ev r = record r {
  slots = set r.slots (r.write_head % r.capacity) (filled now ev);
  write_head = r.write_head + 1;
}

reserve_ok :
    {d : ℕ} {r : Ring}
    → IsValid d r
    → r.write_head < r.read_head + r.capacity
    → (slot_at r r.write_head).state ≡ slot_empty
    → reserve r
      ≡ reserved r.write_head
          (put_slot r r.write_head (record (slot_at r r.write_head) { state = slot_writing }))
unfolding reserve
reserve_ok {d} {r} v h e =
    let no : leb r.capacity (sub_u64 r.write_head r.read_head) ≡ false = ground arith in
    rw no (rw e)

reserve_full :
    {d : ℕ} {r : Ring} → IsValid d r → r.write_head ≡ r.read_head + r.capacity → reserve r ≡ no_slot
unfolding reserve
reserve_full {d} {r} v h = ground arith

reserve_busy :
    {d : ℕ} {r : Ring}
    → IsValid d r
    → r.write_head < r.read_head + r.capacity
    → (slot_at r r.write_head).state ≡ slot_writing
    → reserve r ≡ busy
unfolding reserve
reserve_busy {d} {r} v h e = ground arith

publish_reserved_lem :
    (now : ℕ) (ev : Event) (r : Ring) (s : Slot)
    → 0 < r.capacity
    → length r.slots ≡ r.capacity
    → r.write_head + 1 < 2 ^ 64
    → s.state ≡ slot_writing
    → publish_reserved now ev r.write_head (put_slot r r.write_head s)
      ≡ (ring_ok, enqueued now ev r)
unfolding publish_reserved
publish_reserved_lem now ev r s room sized far e =
    let next : u64 (r.write_head + 1) ≡ r.write_head + 1 = omega arith in
    let same : (r.write_head == r.write_head) ≡ true = ground arith in
    let s' : Slot = record s { write_started_at = now; event = ev } in
    rw (fill-put_slot r r.write_head s room sized now ev, publish_reserved)
      (rw (commit-put_slot r r.write_head s' room sized e, publish_reserved)
        (unfold advance in rw same (rw next)))

pub enqueued-IsValid :
    {d : ℕ} {r : Ring} (now : ℕ) (ev : Event)
    → IsValid d r
    → r.write_head < r.read_head + r.capacity
    → r.write_head + 1 + r.capacity < 2 ^ 64
    → IsValid d (enqueued now ev r)
enqueued-IsValid {d} {r} now ev v h far = record {
  live = v.live;
  room = v.room;
  sized = length-set r.slots _ _ ∙ v.sized;
  taken = omega arith;
  bounded = omega arith;
  far = far;
  drained = λ p a b. ap (λ s. s.state) (other p (omega arith) (omega arith)) ∙ v.drained p a b;
  ready = λ p a b. elim (dec_lt p r.write_head) [
    | yes k ↦ ap (λ s. s.state) (other p k (omega arith)) ∙ v.ready p a k
    | no k ↦
        let e : r.write_head ≡ p = omega arith in
        ap
          (λ k.
            (get_or (set r.slots (r.write_head % r.capacity) (filled now ev)) (k % r.capacity)
              blank).state)
          (sym e)
        ∙ ap (λ s. s.state)
            (get_or-set_self r.slots (r.write_head % r.capacity) (filled now ev) blank
              (omega (arith, v.sized, v.room)))
  ];
  free =
      λ p a b. ap (λ s. s.state) (later p (omega arith) (omega arith)) ∙ v.free p (omega arith) b;
  boundary = λ a. inl (
      ap (λ s. s.state) (later (r.write_head + 1) (omega arith) (omega arith))
      ∙ v.free (r.write_head + 1) (omega arith) a);
}
  where
    other :
        (p : ℕ)
        → p < r.write_head
        → r.write_head < p + r.capacity
        → get_or (set r.slots (r.write_head % r.capacity) (filled now ev)) (p % r.capacity) blank
          ≡ get_or r.slots (p % r.capacity) blank
    other p a b =
        get_or-set_ne r.slots (r.write_head % r.capacity) (p % r.capacity) _ blank
          (λ e. mod-ne r.capacity p r.write_head a b (sym e))

    later :
        (p : ℕ)
        → r.write_head < p
        → p < r.write_head + r.capacity
        → get_or (set r.slots (r.write_head % r.capacity) (filled now ev)) (p % r.capacity) blank
          ≡ get_or r.slots (p % r.capacity) blank
    later p a b =
        get_or-set_ne r.slots (r.write_head % r.capacity) (p % r.capacity) _ blank
          (mod-ne r.capacity r.write_head p a b)

pub contents-enqueued :
    {d : ℕ} {r : Ring} (now : ℕ) (ev : Event)
    → IsValid d r
    → r.write_head < r.read_head + r.capacity
    → contents (enqueued now ev r) ≡ contents r ++ (ev ∷ [])
contents-enqueued {d} {r} now ev v h =
    ap (window c xs r.read_head) count
    ∙ window_last c xs r.read_head n
    ∙ ap₂ (λ l (e : Event). l ++ (e ∷ []))
        (window_ext c r.slots xs r.read_head n (λ q a b.
          ap (λ s. s.event)
            (get_or-set_ne r.slots (r.write_head % c) (q % c) _ blank
              (λ e. mod-ne c q r.write_head (omega arith) (omega arith) (sym e)))))
        (ap (λ k. (get_or xs (k % c) blank).event) end
          ∙ ap (λ s. s.event)
              (get_or-set_self r.slots (r.write_head % c) (filled now ev) blank
                (omega (arith, v.sized, v.room))))
  where
    c : ℕ
    c = r.capacity

    n : ℕ
    n = r.write_head - r.read_head

    xs : List Slot
    xs = set r.slots (r.write_head % r.capacity) (filled now ev)

    count : r.write_head + 1 - r.read_head ≡ suc n
    count = omega arith

    end : r.read_head + n ≡ r.write_head
    end = omega arith

pub publish_eq :
    {d : ℕ} {r : Ring} (fuel now : ℕ) (ev : Event)
    → IsValid d r
    → r.write_head < r.read_head + r.capacity
    → (slot_at r r.write_head).state ≡ slot_empty
    → r.write_head + 1 < 2 ^ 64
    → publish (suc fuel) now ev r ≡ (ring_ok, enqueued now ev r)
unfolding publish publish_loop
publish_eq {r = r} fuel now ev v h e far = rw (usable v) (
    rw (reserve_ok v h e, publish_loop)
      (publish_reserved_lem now ev r (record (slot_at r r.write_head) { state = slot_writing })
        v.room v.sized far refl))

-- Publishing on a valid ring whose next slot is free appends the event to the queue after one round
-- of the reservation loop, keeps the ring valid with the same batch out, and frees nothing.
pub publish_ok :
    {d : ℕ} {r : Ring} (fuel now : ℕ) (ev : Event)
    → IsValid d r
    → r.write_head < r.read_head + r.capacity
    → (slot_at r r.write_head).state ≡ slot_empty
    → r.write_head + 1 + r.capacity < 2 ^ 64
    → let (outcome, r') = publish (suc fuel) now ev r in
      (outcome ≡ ring_ok)
      × IsValid d r'
      × (contents r' ≡ contents r ++ (ev ∷ []))
      × (r'.dsa ≡ r.dsa)
publish_ok fuel now ev v h e far =
    rw (publish_eq fuel now ev v h e (omega arith))
      (refl, enqueued-IsValid now ev v h far, contents-enqueued now ev v h, refl)

publish_loop_busy :
    {d : ℕ} {r : Ring} (fuel now : ℕ) (ev : Event)
    → IsValid d r
    → r.write_head < r.read_head + r.capacity
    → (slot_at r r.write_head).state ≡ slot_writing
    → publish_loop fuel now ev r ≡ (spinning, r)
unfolding publish_loop
publish_loop_busy zero now ev v h e = refl
publish_loop_busy (suc fuel) now ev v h e =
    rw (reserve_busy v h e, publish_loop) (publish_loop_busy fuel now ev v h e)

-- What publishing an event may do, as a queue of bounded size sees it: the queue has room and the
-- event is appended, or the queue is as long as the ring and nothing is changed, or it has room, but
-- another producer is writing the next slot, and nothing is changed.
abbrev pub Enqueues : ℕ → Event → Ring → Outcome × Ring → Type 0
Enqueues d ev r (ring_ok, r') =
    (length (contents r) < r.capacity) × IsValid d r' × (contents r' ≡ contents r ++ (ev ∷ []))
Enqueues d ev r (ring_full, r') = (length (contents r) ≡ r.capacity) × (r' ≡ r)
Enqueues d ev r (spinning, r') =
    (length (contents r) < r.capacity) × ((slot_at r r.write_head).state ≡ slot_writing) × (r' ≡ r)
Enqueues d ev r (not_initialized, r') = ⊥

-- Publishing on a valid ring, whatever the fuel above zero and however many events are being drained:
-- the ring is initialized, and the outcome is one of a queue of bounded size. The event is appended
-- exactly when the call says so; it is refused for want of room only when the queue holds as many
-- events as the ring has slots; and the reservation is still waiting only when the queue has room and
-- another producer is writing the slot at the write head. In the last two cases nothing is changed.
pub publish-Enqueues :
    {d : ℕ} {r : Ring} (fuel now : ℕ) (ev : Event)
    → IsValid d r
    → r.write_head + 1 + r.capacity < 2 ^ 64
    → Enqueues d ev r (publish (suc fuel) now ev r)
unfolding publish publish_loop
publish-Enqueues {d} {r} fuel now ev v far =
    let size : length (contents r) ≡ r.write_head - r.read_head = length-contents r in
    elim (dec_lt r.write_head (r.read_head + r.capacity)) [
      | no h ↦
          let at_end : r.write_head ≡ r.read_head + r.capacity = omega (arith, v.bounded) in
          let run : publish (suc fuel) now ev r ≡ (ring_full, r) =
            rw (usable v) (rw (reserve_full v at_end, publish_loop) refl) in
          subst (Enqueues d ev r) (sym run) (omega (arith, size, at_end), refl)
      | yes h ↦
          let room : length (contents r) < r.capacity = omega (arith, size, v.taken) in
          elim (v.boundary h) [
            | inl free ↦
                subst (Enqueues d ev r) (sym (publish_eq fuel now ev v h free (omega arith)))
                  (room, enqueued-IsValid now ev v h far, contents-enqueued now ev v h)
            | inr held ↦
                let run : publish (suc fuel) now ev r ≡ (spinning, r) =
                  rw (usable v) (publish_loop_busy (suc fuel) now ev v h held) in
                subst (Enqueues d ev r) (sym run) (room, held, refl)
          ]
    ]
